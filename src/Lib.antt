-- ===== src/Lib.antt =====
-- qemu-3dfx: pass-through of 3Dfx Glide and OpenGL from a guest to the host.
--
-- A guest wrapper library (wrappers/) writes the arguments of a call into memory that it shares
-- with a QEMU device, and either queues the call there or stores its number in a device register.
-- The device (qemu-0/hw/3dfx, qemu-1/hw/mesa) runs the queued calls, prepares the arguments of each,
-- calls the host library and writes results back into the shared memory.
--
--   Fifo is the call queue. Fifo/Guest is fifoAddEntry, fifoAddData and the test of FIFO_GRFUNC
--   (wrappers/mesa/src/wrapgl32.c, wrappers/3dfx/src/glidedll.c), Fifo/Host is processFifo
--   (qemu-0/hw/3dfx/glidept_mm.c, qemu-1/hw/mesa/mesapt_mm.c). Fifo/Calls says which calls a memory
--   stands for; Fifo/Send, Fifo/Drain and Fifo/Session relate the two sides. The loop of processFifo
--   takes fuel; more fuel than queued calls is enough. The trace output under GRFifoTrace and
--   DEBUG_FIFO is left out. The `int` number of
--   bytes of a buffer is below 2^31.
--   Registry is the walk of a linked list that gllstbuf.c, mglmapbo.c and mglvarry.c share.
--   Glide/StBuf is qemu-0/hw/3dfx/gllstbuf.c. Glide/FEnum and Glide/Symbols are the numbers and the
--   decorated names of the Glide functions (g2xfuncs.h and the table of glide2x_impl.c), with
--   getNumArgs and GRFEnumArgsCnt. Glide/Args is processArgs of glidept_mm.c: pointers are offsets
--   into the shared memory, and what a case does to memory, files and the window is a list of
--   effects. Glide/Vertex3x is vertex3x.h. Glide/Dispatch is doGlideFunc of glide2x_impl.c: the
--   state glidePostInit, the guards, and for each function the arguments that the library is called
--   with. What the library does with them is not modelled, nor are messages.
--   Glide/FRet is processFRet of glidept_mm.c with glide_winres and glide_mapbufo of glidewnd.c: the
--   registers of the device and of its frame buffer, what the library and the window answer as a
--   record, and what is done outside as a list of effects; `serve` is a call from processArgs through
--   what doGlideFunc does to the arguments to processFRet. The bytes that vgLfbFlush copies out of
--   the shared frame buffer are not modelled.
--   Glide/Guest is the functions of wrappers/3dfx/src/glidedll.c: each is the list of what it does to
--   the shared memory (data, arguments, a call queued or made, data read back), by the guest's memory and the
--   static variables, and Glide/Guest/Synced runs the two sides over such a list. The RLE decoder,
--   the pause of grBufferSwap, InitGlidePTMMBase and DllMain are left out.
--   Mesa/VtxArry is the vertex arrays that the guest pushes: vtxarry_state, vattr2arry and their
--   like (qemu-1/hw/mesa/mesapt_mm.c), PushVertexArray of the host (the same file) and of the guest,
--   and PrepVertexArray (wrappers/mesa/src/wrapgl32.c). An `int` is its 32-bit pattern. The two sides
--   have arrays of their own, related by Mirrors. What the guest's calls of glClientActiveTexture
--   and glDisableClientState put into the queue, the request that the host run the queue, and
--   IsBadReadPtr are arguments.
--   Mesa/Regs is mesapt_write and mesapt_read (qemu-1/hw/mesa/mesapt_mm.c): the registers, a list of
--   what the host does, and an abstract view of the context's life in Mesa/Regs/Phase.
--   Mesa/FEnum is the numbers of OpenGL functions (qemu-1/hw/mesa/mglfunci.h). Mesa/Args is the cases
--   of processArgs of qemu-1/hw/mesa/mesapt_mm.c that take data of a fixed or a counted size.
--   Mesa/Guest is functions of wrappers/mesa/src/wrapgl32.c. Its Fixed and Counted modules have
--   functions that send buffers of a fixed or a counted size, or a text, and get nothing back, and
--   for which Mesa/Args has a case; Unprepared has the 20 such functions for which processArgs has
--   none. Plain has the functions that only store their arguments and queue or make the call, in
--   the runs of five or more as they stand in the file; a row has the number of the function by
--   mglfunci.h. Clear is glClearBufferfv and its like. Mesa/Symbols is the table tblMesaGL of
--   mglfptbl.h, of each name the number after the `@`, with GLFEnumArgsCnt (mesagl_impl.c).
--   Not modelled of wrapgl32.c: shorter runs; glBindFragDataLocationIndexed,
--   glDebugMessageInsertARB, glDeleteBuffers and glDeleteVertexArrays, the three glCombiner wrappers
--   that test the renderer, glProgramNamedParameter4fvNV and 4dvNV, programs and shader sources,
--   maps, pixel maps and the polygon stipple, images and buffers, draws (but for the vertices that
--   they push), residence tests, all functions that return a value or read data back, and WGL. Not
--   modelled of mesapt_mm.c: the cases for these, and processFRet.
--   Mesa/SzData is qemu-1/hw/mesa/szgldata.c, with the values of mgldefs.h in its tables.
--   Mesa/MapBo is qemu-1/hw/mesa/mglmapbo.c. Mesa/VertArry is qemu-1/hw/mesa/mglvarry.c.
--   Wrappers/Hook is HookEntryHook and HookPatchTimer of wrappers/fxlib/fxhook.c; what the system
--   says of a page (VirtualProtect, IsBadWritePtr) and the addresses of the functions are arguments.
--   Wrappers/Md5 is md5 of wrappers/fxlib/md5.c. Its loop takes fuel, and has one unit for each byte
--   of the padded message where it needs one for 64; `int new_len` is taken from a 64-bit sum.
--
-- Addresses that the host's allocator returns are arguments. Numbers are natural numbers, and
-- arithmetic on unsigned words wraps where it is written `%`.
pub mod Prelude
pub mod Registry
pub mod Fifo
pub mod Glide
pub mod Mesa
pub mod Wrappers
