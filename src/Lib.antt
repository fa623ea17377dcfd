-- ===== src/Lib.antt =====
-- capnpc-wasm runs the Cap'n Proto compiler and its code generators as WASI commands inside a
-- host. The TypeScript SDK under sdk/typescript bounds and instruments each guest module,
-- checks every request before any guest runs, runs the guests against a file system with
-- budgets, and reports results from the calling thread or from a worker. This library models
-- the SDK's own logic.
--
-- Common holds what the modules share: tests on native numbers, lists over them, the bit
-- operators as arithmetic, thrown errors as values (Common.Result) and the doubles that a
-- caller passes (Common.Number).
--
-- Rewriter models sdk/typescript/rewriter.ts. Rewriter.Reader is class Reader: the readonly
-- fields are an environment, the position is threaded, and a method that throws returns an
-- error. Rewriter.Writer is class Writer with its parts, pending bytes and slots, and the
-- function leb. Rewriter.Memory is moduleBytes, boundedMemory and boundMemory, and the modules
-- below it describe what a module is (Layout) and how the scan and the replacement work on one.
-- Rewriter.Types is the parsers of types and immediates. Rewriter.Checks is checkSequence and
-- chargeSequence; Rewriter.Checks.Machine is the part of WebAssembly that their code uses, with
-- its binary format and its meaning, and Rewriter.Checks.Assembly and Run join the two.
--
-- Rewriter.Instrument is the function instrument. Its local variables are the record State, the
-- shared reader is an environment with its position, and an inner function is a Pass: it
-- returns a value with the new variables and the new position, or throws. Parts holds the inner
-- functions that the handlers share, Sections the handlers of the type to the element section,
-- Body functionBody, Code the code and the name section, and Main the loop over the sections. A
-- thrown error inside names is caught where the source catches it. Triple and Keeps are the
-- rules by which what holds of a Pass is put together from its parts, and the modules under
-- Indexed follow the index tables through every handler. Reference is what functionBody is to
-- write, one instruction at a time; Alike runs two passes side by side, and Spans and Rewriting
-- join the source's way with that one.
--
-- Interrupt models sdk/typescript/interrupt.ts: JobControl with its polls and its sleep,
-- checkTimeout and jobOptions. The clock, the shared cell and the abort signal are
-- observations, one for each poll; a time is a natural number of any unit. The rewriter's code
-- is what makes a guest poll, and the control is what answers.
--
-- Limits models sdk/typescript/limits.ts and the limits of sdk/typescript/types.ts. Limits.Utf8
-- is utf8Size, with the string iterator and TextEncoder written out on UTF-16 code units.
-- Limits.Paths is checkPath, Limits.Resolve is resolveLimits, Limits.Mounts is the loop of
-- validateCompile over the files of a mount, and Limits.Request is validateGenerators,
-- validateCompile and validateGenerate. An object of limits is a function from its keys, and
-- supplied values are data types with a case for each test that the code makes. A Set is the
-- list of its elements, and an object of files is the list of its own properties in the order
-- of enumeration; getters that run code are not modelled.
--
-- ResourceFs models sdk/typescript/resource-fs.ts: the write and read imports of boundWasiIO on
-- a guest's memory, over a descriptor that may throw; in ResourceFs.Guards its imports that
-- check a range or a length first, random_get among them; in ResourceFs.Descriptors the ceiling
-- on live descriptors; in ResourceFs.Budget class ByteBudget with the descriptors that
-- path_open of a file opens and guards, and boundedStream; and in ResourceFs.Entries
-- boundFilesystem, over a store of inodes. The WASI shim is a submodule, and its methods and
-- imports are the parameters Shim, FileMethods and two records of Imports, with what is relied
-- on as hypotheses; a method may resize the buffer of a file in place before it assigns the
-- data. getRandomValues is a parameter too.
--
-- Protocol models sdk/typescript/protocol.ts: encodeError, and decodeError on any value that
-- crosses, which is an object with the properties that are read, a text, a number, an array of
-- diagnostics, or another value by what String gives of it. An object, a thrown value or a
-- cause may be one on which String throws. A text that the code compares with has a constructor
-- of its own, and the classes of errors are those that the code tells apart. The message of an
-- engine's TypeError is a fixed text.
--
-- Loops that are not structural run on fuel. Reader.u32 has the 5 rounds of the source's own
-- for loop, and Reader.s32 has 6, since the source throws as soon as the shift is 35;
-- Writer.u32 and leb have the value and one more; Writer.s32 has 5, which use up an int32; the
-- scan of the sections has the length of the module and one more, since each section takes two
-- bytes at least; the loops of instrument over sections, constant instructions, instructions
-- and name subsections have the end of their reader and one more, since each round reads a
-- byte. The loop of random_get has the length and one more; attach of boundFilesystem has the
-- number of inodes and one more, since each round retains one. A loop that ran out would return
-- stuck, which no theorem takes for success.
--
-- An int32 is its bit pattern below 2^32, and each operator's wrap-around is written out. A
-- Uint8Array is the list of its bytes; Uint8Array.from takes each number modulo 256. A name is
-- its bytes, compared with an ASCII text as TextDecoder would give it: without a byte order
-- mark. The exit function of none is -1 in the source, and Infinity as an order is 14, which no
-- section has.
--
-- Not modelled: copyFiles, postReply of the worker protocol, its client and the runtime, which
-- need the same groundwork; the WASI shim, a submodule; the launcher and the scripts, which are
-- process and file input and output; code in Go and Rust.
pub mod Common
pub mod Interrupt
pub mod Limits
pub mod Protocol
pub mod ResourceFs
pub mod Rewriter
