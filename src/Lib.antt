-- ===== src/Lib.antt =====
-- PatrolSystem: the firmware of a patrol robot (a Loongson board with a USB camera, a TCP link to
-- the operator's program LongLook and a serial link to the motor controller).
--
-- The parts and their files. Network: frames [A5][type][length, 4 bytes][payload] in Network/Frame
-- (include/modules/network/FrameProtocol.h); Network/Server has `pollCommands`, the receive loop
-- and the scan of the buffer, Network/Send has `sendAll`, `sendFrame`, `sendText`, and
-- Network/Listener the listening socket (src/modules/network/TcpServer.cpp); Network/Client is the
-- test client (src/modules/network/TcpClient.cpp). Serial: frames [AA][55][LEN][CMD][payload][CRC8]
-- in Serial/Protocol (include/modules/serial/Protocol.h), the scan of the receive buffer in
-- Serial/Manager and the opening of the port in Serial/Port (src/modules/serial/SerialManager.cpp).
-- Camera has the camera with its buffers (src/modules/camera/CameraManager.cpp). Handle is the file
-- descriptor that each of these classes owns. Model holds the data of include/model; Business has
-- the controllers of src/business: Robot, Mission, Patrol. Core has include/core: EventBus,
-- StateMachine, and in Clock the Timer and the TaskScheduler. App has src/app/Application.cpp:
-- `serveClient` in App/Serve by the frames that it is given, and in App/Stream with its camera,
-- `run` and its sleep in App/Run by what they find, and in App/Whole a whole run with its camera;
-- the first sends frames by Network/Send and takes commands by Network/Server, and `run` accepts by
-- Network/Listener. Text has strings and printed numbers as the C library has them; Json the parser
-- of include/utils/JsonHelper.h, in Json/Docs the documents that it is to read and in Json/Meaning
-- what they mean; Config has src/modules/config/ConfigManager.cpp, which loads by Json; TimeUtil
-- the time as text (include/utils/TimeUtil.h); Logger has src/modules/logger/Logger.cpp. Cli has
-- the options of src/main.cpp, and Main puts the loaded configuration under them, ends with the
-- code of App/Whole and sets up the log. Base has what all share, and each part's Tests run its
-- definitions at concrete inputs.
--
-- How the code is read. A method is a function from the state before it, a record of the class's
-- fields, to the state after it, its result, and the calls that it makes, in order. What the kernel
-- answers is an argument: the answers of `recv` and `send` are a list, one for each call, and
-- `none` stands for a list that ends before the call does. A byte is a number below 256, a vector
-- of bytes a list; unsigned sums wrap as written. The signed count `total` of `pollCommands` and
-- the `int` ids of the bus and the scheduler are not bounded, where the code would overflow; `atoi`
-- and `atoll` cut a number out of range as the GNU C library does. A double is the text that `atof`
-- is given, and `to_long`, the conversion of that to an integer, is a parameter. A callback is its
-- name, or whether it is set. Where the code holds a mutex, calls of several threads are calls one
-- after the other.
--
-- Fuel. The two scans of a receive buffer take as fuel one more than the bytes of the buffer; each
-- round drops one byte at least, and the theorems on what the scans leave say that the fuel is
-- enough. The JSON parser takes twice the bytes of the text and one: each value and each turn of a
-- loop inside another takes one; a value is shorter than the one that it stands in, and an element
-- begins where its turn does. The digits of a number are printed with fuel above the number. All
-- other loops recurse on a list: of answers, of tasks, of subscriptions, of bytes.
--
-- Not modelled: the texts of the log lines, of the version and of the usage, which are only printed
-- (the log takes a formatted message); file and clock access, whose answers are inputs; the test
-- programs; the kernel modules, a copy of a file of Linux and generated glue; and the scripts.
pub mod Base
pub mod Handle
pub mod Text
pub mod Network
pub mod Serial
pub mod Model
pub mod Business
pub mod Core
pub mod Camera
pub mod App
pub mod Json
pub mod Config
pub mod TimeUtil
pub mod Logger
pub mod Cli
pub mod Main
