-- ===== src/Lib.antt =====
-- A model of the emulator that turns a Linux board with a USB gadget controller into a modem for a
-- game console, and of what makes it correct.
--
-- The console sees one of four USB modems (src/modem_lucent.cpp, src/modem_omron.cpp,
-- src/modem_onlinestation.cpp, src/modem_smartscm.cpp). The main thread answers the control requests
-- on endpoint 0 (`event_usb_control_loop` of src/main_app.cpp); SET_CONFIGURATION starts a thread
-- for each endpoint. A thread that receives collects the game's bytes: off line they are AT command
-- lines (`Modem::process_at` of src/modem.cpp), on line they go to the other player (`tcp_sock`) or
-- to the provider behind a pseudo terminal (`pty_dev`, `ISP`). Everything for the game goes through
-- one ring buffer (`ring_buffer`), which the threads that send empty. The threads share `AppContext`
-- (src/app_context.h).
--
-- The files and what they model:
--   RingBuffer       src/ring_buffer.h: the class, one function per method, the lock's span as one
--                    step. Inv has the invariant and the contents, Fifo and Bulk what single calls
--                    and the loops do, Queue the abstract FIFO queue.
--   Text             std::string, and sscanf with `%u`: Search is find, Scan the scanner, Decimal
--                    and Hex the printing of numbers.
--   Modem.Address    `Modem::parse_address` of src/modem.cpp
--   Modem.Number     `isPPPNumber` of src/modem.cpp
--   Modem.At         `Modem::process_at`, and `process_at_ext` of the four modems; Replies and Laws are
--                    the theorems.
--   Modem.Registry   `Modem::getInstance`, with the objects made and deleted
--   Modem.Line       the threads that receive, behind `ep_read`: the off-line and the on-line loop.
--                    Feed and Chunks compare the off-line loop with a reader byte by byte; Payload
--                    is the framing of the Omron modem, Online the on-line loop; Sending says when
--                    `send` ends and Safe when a round does.
--   Modem.BulkIn     the threads that send, a round at a time, and `control_out_thread` of the
--                    SmartSCM modem; Stream, Smart and Status are their theorems, Deadline the loop in
--                    front of a wait. Rounds has an interface that many rounds of any sender are
--                    proved for, and Senders the modems as its instances. Idle are the threads that
--                    only sleep or read.
--   Os               the system calls with their answers, and the ways in which a function ends: ok,
--                    a fault (an exception that nothing catches, or an access out of bounds), or
--                    running (the fuel is used up)
--   TcpSock, PtyDev  src/tcp_sock.cpp and src/pty_dev.cpp, with the descriptors that they own; Receive
--                    is what a round of their receiving threads comes to.
--   Isp              src/isp.h
--   Context          src/app_context.h, the callbacks of src/main_app.cpp, `handle_disconnect`, and the
--                    rounds of the receiving threads; Readers is about these, Healthy about what
--                    every thread relies on and keeps.
--   System           the threads' turns on the shared state, as steps in any order: Steps is about one
--                    turn, Reach about any number, Line about what a turn does to the
--                    line, Whole about the turns from `main` on,
--                    Delivery about bytes from the other player.
--                    The threads that send or take only notifications (`intr_in_thread`,
--                    `control_in_thread`, `gpio_in_thread`, `gpio_out_thread`) are not in it.
--   Main             `main` of src/main_app.cpp, up to the event loop; Begun is the state that it leaves,
--                    whatever the system grants.
--   Usb.Descriptor, Usb.Tables  the descriptors of the four modems, and their bytes
--   Usb.Device       the modem object with its threads
--   Usb.Gadget       src/usb_raw_gadget.cpp: the device file, the names of the controller, the
--                    transfers and their dumps
--   Usb.Request      control requests: Model and Log are
--                    src/usb_raw_control_event.cpp, Handlers
--                    `process_control_packet` and the modems' handlers, Loop the event loop; Copies,
--                    Threads, Laws, Safety and Events are the theorems.
--   Tests            the theorems at concrete states
--
-- Numbers are natural numbers. The ring buffer's `size_t` keeps its wrap-around modulo 2 ^ 64; `%u`
-- keeps that of `unsigned long`, whose largest value is a parameter, and of 32 bits. Bytes are
-- numbers below 256, which only the theorem on dumps needs.
--
-- Loops that are not over a list run on fuel. The off-line loop takes a byte off the buffer in every
-- round but the last, and gets one round more than there are bytes. The loops of `send` get as many
-- rounds as there are bytes. The loop over the commands of a packet of 64 bytes moves on by three
-- bytes, and gets 23 rounds. The loop in front of a wait moves on by at least a millisecond.
--
-- The rows of a dump and the lines of a file are fewer than their bytes, which is the fuel there.
--
-- The system is open: it answers each call by its number and its arguments, as `answers` says, and a
-- theorem holds for every such function that its hypotheses allow. `inet_addr`, what `getopt`
-- returns, and the files below /sys/class/udc are arguments too. Not modelled: what is printed, but
-- for the dumps of transfers and of control events; `show_usage`; and the setters that main calls
-- once, before the threads run. Threads are seen as sequences of turns: a turn is a round of a
-- thread's loop, which holds a mutex or changes one atomic field at a time. Two threads within a
-- round at once are seen only in the calls on the ring buffer and in what may come in between the
-- two looks of a SmartSCM round. A descriptor that `select` is given is taken to be below
-- FD_SETSIZE.
pub mod Prelude
pub mod RingBuffer
pub mod System
pub mod Text
pub mod Main
pub mod Modem
pub mod Os
pub mod TcpSock
pub mod PtyDev
pub mod Receive
pub mod Isp
pub mod Context
pub mod Usb
pub mod Tests
