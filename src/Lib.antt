-- ===== src/Lib.antt =====
-- The firmware of the dropbot: a model of its tasks and drivers, and what holds of them.
--
-- The firmware is a set of tasks on one executor, which share state only through the channels,
-- watches and signals of src/task_sync.rs. The MQTT session (src/tasks/mqtt_manager.rs) resolves
-- topics and queues messages for the dispatch (src/tasks/mqtt_client.rs), which parses them for the
-- motor task and the update task. The motor task (src/tasks/motor_controller.rs) owns the bridge and
-- gives it up while the update task (src/tasks/ota_manager.rs) announces an update on a watch. The
-- battery task (src/tasks/battery_monitor.rs) asks the power task (src/tasks/power_button.rs) to shut
-- down; that task owns the supply latch and tells the display task (src/tasks/display_controller.rs),
-- which also follows the update watch. The IMU task (src/tasks/imu_monitor.rs) reads the two sensors
-- and filters them; what it offers goes out on the stream (src/tasks/imu_publisher.rs) and, once a
-- second, with the other tasks' readings (src/tasks/telemetry_aggregator.rs).
--
-- A task is a state record and a step function: each await is a phase, what ends it is a wake-up, and
-- a run is any sequence of wake-ups, so theorems on runs hold for every order in which the inputs
-- come. Effects are recorded in lists, and what a device or a library replies is an arbitrary function
-- of the calls before, so theorems hold for every behaviour of it, errors included.
--
--   Prelude    names and lemmas that all share: tests, lists, results, words, text.
--   Sync       watches and channels as interfaces with the documented laws, and instances of them.
--   Float      f32 as an interface; what a theorem needs of its rounding is a hypothesis (IsIeee
--              for zero, IsMonotone for the order and for what stays between 0 and 1). Float/Fixed is
--              an instance with integers.
--   Battery    src/data/battery.rs (Battery, Battery/Charge), src/drivers/battery_charger.rs
--              (Battery/Charger), src/tasks/battery_monitor.rs (Battery/Monitor).
--   Menu       src/data/menu.rs.
--   Ota        src/data/ota.rs (Ota/Status); src/tasks/ota_manager.rs (Ota/Manager): the functions
--              check_and_apply_update and publish_status by name, the download loop as `download`,
--              the body of the task's loop after its wait as `round`; the task
--              around it, with the confirmation of the slot at boot, in Ota/Task.
--   Network    src/device_id.rs (Network/Device), src/topics.rs (Network/Topics),
--              src/data/configurations.rs (Network/Configuration), src/tasks/mqtt_client.rs
--              (Network/Dispatch), src/tasks/mqtt_manager.rs and src/data/mqtt.rs (Network/Session),
--              src/tasks/telemetry_publisher.rs and src/tasks/imu_publisher.rs (Network/Publisher),
--              src/tasks/network_monitor.rs (Network/Monitor).
--              Network/Heapless is the interface of the fixed-capacity buffers.
--   Motor      src/drivers/motor_driver (Motor/Driver), src/tasks/motor_controller.rs (Motor/Task).
--   Power      src/tasks/power_button.rs and src/data/power.rs.
--   Display    src/tasks/display_controller.rs (Display/Controller); src/drivers/display_driver: the
--              layout of texts (Display/Layout), the screens as lists of drawing calls
--              (Display/Screens) and the state of the driver (Display/Driver).
--   Imu        src/drivers/imu/bmi270.rs (Imu/Inertial), src/drivers/imu/mmc5983ma.rs (Imu/Magnetic)
--              and src/drivers/imu/mod.rs (Imu/NineAxis) over the bus of Imu/Bus, which records its
--              transactions; Imu/Inertial/Part is the part as its datasheet has it, which the calls
--              drive. src/data/imu.rs: the attitude's functions (Imu/Attitude), HardIron
--              (Imu/HardIron), LowPass and ImuFilter (Imu/Filter), with the operations of f32, libm
--              and glam as an interface (Imu/Maths), of which Imu/Maths/Planar is an instance.
--              src/tasks/imu_monitor.rs (Imu/Monitor).
--   Telemetry  src/data/telemetry.rs and src/tasks/telemetry_aggregator.rs.
--
-- Numbers are natural numbers; where the source computes in w bits, the wrap-around is written out.
-- Loops are structural: the body of a download is the finite list of what its reads give, a message
-- wraps on the number of lines that are free. The loop that drains a queue has as fuel what the queue
-- holds and one more, which Network/Session/Stream shows to be enough. Decimal digits have the number
-- and one as fuel, more than it has digits. The upload of the sensor's image has the image's length as
-- fuel, of which each chunk takes one byte or more; Imu/Inertial/Upload shows that all of it arrives.
--
-- Not modelled: log lines; the wiring of src/main.rs, src/pins.rs and src/task_sync.rs beyond the
-- interfaces; the bus of src/drivers/shared_i2c.rs; src/drivers/ota_driver, which no module declares. What f32 rounds, and
-- what the rotations of glam compute, is left open.
pub mod Prelude
pub mod Sync
pub mod Float
pub mod Battery
pub mod Menu
pub mod Ota
pub mod Network
pub mod Motor
pub mod Power
pub mod Display
pub mod Imu
pub mod Telemetry
