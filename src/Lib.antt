-- ===== src/Lib.antt =====
-- A model of the parts of linux-comon that hold its own logic, with the theorems that make them
-- correct. linux-comon is the user-space code of four embedded Linux boards: libraries that they
-- share (common/utils), a smart camera (project/SmartCam), a power meter (project/elec), an IoT
-- gateway (project/iot-gw) and a scanner (project/iscanner100).
--
-- The parts that are modelled, and how they interact:
--
-- FrameRing is project/SmartCam/app/ringbuffer.c, the pool of five frames between the capture of
--   video and its consumers. Queue has `queue_push` and `queue_pop`, each the critical section behind
--   its wait as one step (`waits` where the code waits on the condition); Frame the
--   copy of `ringbuffer_push` on blocks of memory, which faults outside a block; Ring the functions
--   of the file, `ringbuffer_push` in its two halves; System the threads as a step relation on the
--   pool and on the frames that they hold; Stream the loop of `stream_video` in
--   project/SmartCam/app/tcp_server.c, a consumer; Fifo, Copy, Ownership, Progress and Leak the
--   theorems.
--
-- Meter is project/elec/module/src/im3332.c, the driver of the IM3332 power meter. Modbus has the
--   state of the file (`ctx`, `im3332_mutex`, `im3332_fd`) and its monad, in which a second lock of
--   the mutex blocks; Driver, Alarm and Sample the functions, by their names in the code; Mutex,
--   Limits, RoundTrip and Dangling the theorems. libmodbus and the sampling device are the parameter
--   `Modbus`; RegisterFile states what libmodbus documents of a line that works.
--
-- Gpio is common/utils/gpio/gpio.c (Pin) with do.c, di.c (Channel) and led.c (Led) of
--   project/iot-gw/module/src on top of it. The system calls are the parameter `Files`; Descriptors
--   and Sysfs state what POSIX and the kernel document of them. Levels has the theorems on levels.
--
-- Params is project/elec/module/src/ModParam.c, the parameters of the power meter's application: one
--   struct of strings in arrays (Strings has `strncpy` and `snprintf`, which are none where they
--   leave an array), set by State, reset by Reset, and joined by Events to the driver of Meter; Uuid
--   is `ModParamGetUUID`, Access what is given out, the other modules the theorems.
--
-- Daemon is project/iot-gw/app/iot_daemon.c, which runs the commands of its clients on the gateway:
--   Handlers calls the channels and the leds of Gpio, and the rest of the board is the parameter
--   `Board`; Process is `test_process` and what it sends; States, Outputs and Sent have the
--   theorems, Inputs the lemmas on the reading of the inputs.
--
-- Sd is project/iot-gw/app/mount_sd.c, which mounts the partitions of an SD card: Names has the names
--   of devices and directories, Events the mounts and the answers to the events, Monitor the
--   loop, over the parameter `Host`; Numbers, Mounts and Arrivals the theorems.
--
-- Radio is common/utils/rf, the AT commands of the radio modules: Modem has the state (`g_rf_mutex`
--   and the world behind the system calls, the parameter `Port`) and its monad, in which a call may
--   leave an array or wait for the mutex for ever; Text the string functions of the C library; Serial
--   the line (`rf_read`, `parse_RFinfo_request`); Quectel and Lynq the parsers of rf_quectel.c and
--   rf_lynq.c; Common the requests of rf_common.c under the mutex, and the grades of the signal;
--   Bounds, Mutex, Substring, Numbers and Results the theorems.
--
-- Ping is common/utils/network/ping.c: Checksum and Packet the bytes, Session the loops over the
--   parameter `Net`; Replies, Changes and Echo the theorems.
--
-- NetIp is common/utils/network/netip.c: Mask the netmasks, Interface and Read the addresses and
--   flags of interfaces, Routes the table of routes, over the parameter `Netif`; Masks and
--   DefaultRoute the theorems.
--
-- RfModule is project/iot-gw/module/src/rf.c, the radio module of the gateway: Device its device file
--   and its power, Info the requests through Radio, Dial the connection through NetIp; Reset the
--   theorem.
--
-- StrFunc is project/SmartCam/module/src/strfunc.c, numbers in strings; Exact has the theorem.
--
-- Thread is common/utils/threads/thread.c, over the calls of pthread; Stack has the theorem.
--
-- Utest is common/utils/utest/utest.c, the runner of the unit tests: Asserts, Waits and Runs the
--   functions, Counts the theorems. The events of a child are a list.
--
-- Numbers: a C `unsigned` is a natural number with its wrap-around written out where the code can
-- reach it; a result that is an `int` is an integer, cut to 32 bits where it is read from a string
-- (`nearest_int` of Prelude/Int, for the 32-bit target), and without bounds elsewhere. Bytes are
-- natural numbers. Loops are structural recursion on the number of rounds left: the rows of a
-- picture, the five frames, the sixteen bits of a mask; only the wait of `ping_recv` has fuel. The
-- decimal digits of a number are bounded: seven for the number of a pin (`gpio_str` has room for
-- seven), ten for a 32-bit port and for the number of a partition.
--
-- A thread may be stopped only outside the critical sections of a queue, since the lock is held
-- inside; no wake-up of a condition is modelled, so that the theorems on progress say which calls
-- do not wait, not that a waiting thread is chosen.
--
-- The loop of `ping_recv` over EINTR has fuel: one round is enough where no signal interrupts it, and
-- a result `waiting` says that the fuel has ended. `rf_read` makes at most three times ten reads.
--
-- Not modelled: of iot_daemon.c the sockets, `rf_mod_info` and the length that is sent; of
-- tcp_server.c the sockets; of rf_common.c the lines of the other boards; of rf.c the two tests that
-- print; messages to the console. The other programs of the repository are not modelled: the
-- camera's commands and capture, the other daemons of the gateway.
-- project/SmartCam/app/update_engine and external/cJSON are copies of other projects.
pub mod Prelude
pub mod FrameRing
pub mod Meter
pub mod Gpio
pub mod Params
pub mod Daemon
pub mod Sd
pub mod Radio
pub mod Ping
pub mod Utest
pub mod NetIp
pub mod RfModule
pub mod StrFunc
pub mod Thread
