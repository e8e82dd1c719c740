-- ===== src/Lib.antt =====
-- fb-adb: a shell, file transfer and debugging tool that talks to an Android device through adb.
-- A host process and a stub on the device each run an event loop (core.c) over channels
-- (channel.c). A channel moves bytes between a file descriptor and a ring buffer (ringbuf.c);
-- the loop moves them between the channels' rings and framed messages on the two channels of the
-- peer. Where the stub sits behind an adb pty, adbenc.c keeps a byte off the wire that adb takes
-- for an escape. Command lines pass a shell on the device, so strutil.c quotes words.
--
-- Adbenc: adbenc.c. A pair of pointers is the room left, stored bytes are a list.
-- Strutil: strutil.c. The buffer and position of the lim_ functions are one record;
--   Strutil.Shell is a reader of shell words, which is no code of the repository.
-- Util: size arithmetic of util.c and util.h, with a 64-bit size_t that wraps. Util.Hex has
--   hex_encode_bytes.
-- Outcome: how die and assert end a call.
-- Resource: resource lists, cleanups, die and catch_error of util.c. All resources are one list
--   with their owners, and a cleanup's function is a number that goes to a log when it is run. A
--   jump to a handler is a result. What calloc and malloc answer is a parameter. Resource.Catch
--   has the calls that can die, Resource.Order, Shrinks and Filter what unlinking and moving do.
--   Resource.Empty is about the loop that empties lists in lists, Resource.Lifo about the order
--   in which it does, Resource.Keep about what allocations do to the state. Resource.Handle,
--   Resource.Die and Resource.Return are about the two ends of a catch_error.
-- Ringbuf: ringbuf.c. Pointers into the ring are indices; readv and writev are parameters.
-- Channel: channel.c. An open descriptor is a number, a closed one is none. What read and write
--   answer is a parameter, by the number of the call; what goes out to the descriptor is a
--   result. Channel.Hack has the two loops behind an adb pty, Channel.Poll the calls of the
--   event loop.
-- Proto: proto.h, the four frames of the event loop as bytes.
-- Core: core.c. The state is struct fb_adb_sh with its array of channels as a list, where an
--   index outside is a fault, and with a log of what was written. Core.Receive has the handlers
--   of messages, Core.Transmit what is sent, Core.Loop the pump. Core.Link has one channel with
--   its two ends on two machines, and what is on its way between them; its events are the calls
--   of the two loops, in any order, and its messages are not cut to the 16 bits of their size,
--   which both programs keep max_outgoing_msg below. Core.Message has the reader of whole
--   messages of the handshake. The LZ4 functions are parameters.
-- Growable: the growing buffers and strings of util.c, and slurp_line of fs.c. A buffer is the
--   list of bytes in its allocation; what realloc answers, and what it leaves in new memory, are
--   parameters.
-- Chat: chat.c, the dialogue with a shell. What the child is yet to send and what was written
--   are lists of bytes; the signedness of char is a parameter. Chat.Prompt is about the wait for
--   a prompt, Chat.Echo about the echo of a line, Chat.Line about reading one.
-- Fs: the loops of fs.c that read and write whole buffers, and slurp_fd. The kernel is a state
--   with a function for read and one for write; Fs.Kernel has what the loops rely on of them, as
--   a record of laws. Fs.Encoded is the reading loop of adbenc.c, which stands on the same laws.
--   Fs.Ends is what a client of read_all and write_all sees of two descriptors, Fs.Memory has
--   descriptors in memory for the examples.
-- Argv: argv.c. An array is the list of its slots, a list its strings and the index of its
--   cursor. Argv.Concat is about the concatenation of arrays, Argv.Walk about walks over lists.
-- Xenviron: xenviron.c. The block is the list of the pointers in its allocation;
--   Xenviron.Entries has the blocks of lists of variables, Xenviron.Assign and Xenviron.Remove
--   what the calls do to them.
-- Json: json.c. The contexts are a stack with addresses that are never reused; a call maps a
--   writer to a writer, an error with the writer at that point, or a crash. putc and the step of
--   the UTF-8 decoder are parameters. Json.Docs has a type of documents and their printed form,
--   which are no code of the repository.
-- Xfer: xfer.c. A descriptor is a function on the kernel's state; Fs.Ends has what the loops
--   rely on of two of them, and fills it from the loops of fs.c. Xfer.Wire has the messages,
--   Xfer.Copy and Xfer.Receive the two loops. Xfer.Calls has runs of system calls with their
--   log, where each answer is a parameter; Xfer.Dest is do_xfer_recv, Xfer.Command the other
--   commands of the stub. Xfer.Dest.Protocol is the machine that reads the log of an atomic
--   transfer, which is no code of the repository.
-- Handshake: the messages behind the hello message. Handshake.Host has the sending functions of
--   cmd_shex.c, Handshake.Child read_child_arglist of cmd_stub.c with its branches.
--   Handshake.Item is a type of what can be said, with its bytes and its effect, which are no
--   code of the repository; Handshake.Setup has all that is said of a child as a list,
--   Handshake.Send is about the bytes that the host writes, Handshake.Turn, Effect, Environ and
--   Loop about the stub that reads them, with what it stands on as one record.
--
-- Fuel: empty_reslist takes one round for each resource and each address that was given out,
-- which is enough for lists in lists. json_pop_to_saved_context takes one more round than there
-- are contexts. The loop of write_all_adb_encoded takes the plain size plus one, and is proved
-- to need no more. The read loop behind a pty has fuel for two rounds to a byte. The write loop
-- behind a pty and the loops of the pump take the fuel as a parameter, since a descriptor that
-- takes no byte keeps them going for ever. The loops of fs.c take fuel too, and are proved to
-- need one round for each byte, each buffer and each interruption. The loops of a file transfer
-- take fuel for each chunk and one more, the stub's loop over the messages behind the hello
-- message for each message. All other loops recur on their data or on the room left.
--
-- Not modelled: the commands but for the file transfer and the messages that set a child up, the
-- message text, error converters and quit signals of util.c, most of the file system, network
-- and process layers, the code that third parties wrote (lz4.c, sha2.c, tree.h, valgrind.h),
-- scripts and build files.
pub mod Prelude
pub mod Adbenc
pub mod Strutil
pub mod Outcome
pub mod Proto
pub mod Growable
pub mod Chat
pub mod Fs
pub mod Argv
pub mod Xenviron
pub mod Util
pub mod Ringbuf
pub mod Channel
pub mod Core
pub mod Json
pub mod Xfer
pub mod Handshake
pub mod Resource
