-- ===== src/Lib.antt =====
-- renderer-service-upnp is a D-Bus service that lets clients control UPnP and DLNA media renderers on
-- the local network. A call of a client becomes a task (src/task.c), which the service
-- (src/renderer-service-upnp.c) puts into the queue of that client and that device. The task
-- processor (src/task-processor.c) runs the queues from the main loop, one task of a queue at a time.
-- The UPnP layer (src/upnp.c) finds the task's device, and the device (src/device.c) carries the task
-- out by a UPnP call whose end schedules the task's completion (src/async.c), or at once. A device
-- that is found is built by a queue of service tasks (src/service-task.c). Files that clients host
-- for a device are served over HTTP (src/host-service.c).
--
-- Which file models which part:
-- - Prelude, Dict: shared names, tests and lemmas; GLib's hash tables as association lists, walked in
--   the order of the list.
-- - Error: src/error.h and src/error.c.
-- - Task: src/task.h, src/task.c and the data of src/async.c. Task/Kinds has the task types and their
--   parameters, Task/New the constructors rsu_task_*_new, Task the operations rsu_task_complete,
--   _fail, _cancel and _delete, each with the effects that the outside sees; Task/Replies counts
--   answers.
-- - Processor: src/task-processor.c, the callbacks of src/service-task.c, and those that
--   src/renderer-service-upnp.c gives to the queues of clients. Processor/State has the state:
--   `Processor` is rsu_task_processor_t with the main loop's idle sources and the output so far,
--   `Queue` rsu_task_queue_t, `Key` rsu_task_queue_key_t. Processor/Queues has add_queue,
--   lookup_queue, queue_start and add_task, Processor/Cancel the cancelling of queues and their
--   removal by source or sink, Processor/Callbacks the deletion of queues and
--   rsu_task_queue_task_completed, Processor/Run prv_task_queue_process_task and the ends of tasks.
--   Processor/Reach has the step relation: every event that the main loop, D-Bus or the network can
--   cause, in any order. Invariant, Sound, Frame, Walks and Steps are about the agreement of queues
--   and sources; Kept and Conserved say what the walks over all queues keep; Answers, Balance,
--   Running and OneAnswer are about the answers to D-Bus calls; Busy and Counted about
--   `running_tasks`; Quitting, WhenQuitting, Lively, Ends and Quits about the quit callback; Stall
--   about service tasks that fail; Finally about the finally callback of a cancelled queue.
-- - Upnp: src/upnp.c. Upnp itself is the dispatch of tasks to devices; what src/device.c does with a
--   task is a record of functions there, DeviceOps. Upnp/Discovery has the renderers that appear on a
--   network interface and go from it (prv_server_available_cb, prv_server_unavailable_cb), the
--   devices under construction (rsu_device_new, prv_device_chain_end) and the timer of a lost
--   interface; Construction is about the queue that builds a device, Tables, History and Subscribed
--   about the two tables of devices, Marks about the devices that have lost all their contexts
--   under construction, Events about all orders of these events; Servers has the list of devices.
-- - Glib: text as the list of its code points, g_strsplit and g_strstrip as an interface, GlibText,
--   with the documented laws that the program relies on; Glib/Decimal has strtol, atoi and printf.
-- - Device: src/device.c. Device/Contexts has a device's contexts (one for each network interface)
--   and their subscriptions; Positions, Preferred and Kept are about which context is subscribed.
--   Device/Props has the properties with Get and GetAll, which Answers compares. Duration, Rates and
--   Metadata have what is read from a renderer's texts, Changes and Update the properties that its
--   events and its description change, with the PropertiesChanged signals, which Signals and Watching
--   follow; Commands has rsu_device_set_prop, rsu_device_get_prop, rsu_device_get_all_props and the
--   transport commands; Protocols has prv_process_protocol_info and Introspection the declared
--   properties; Inserted and Stable say what every operation keeps, Typed and Offered apply them to
--   the properties' types and, with Speeds and Published, to the rate that a client sets; Fractions
--   says which of the allowed speeds are offered, and as which numbers. Objects has
--   the D-Bus objects of a device. Device/Hosting has rsu_device_host_uri and rsu_device_remove_uri.
-- - Renderer: the D-Bus side, src/renderer-service-upnp.c. Renderer/Context has the clients and the
--   devices that come and go, Renderer/Calls the method handlers; Made, Paid and Answered are about
--   the answers to calls, Clients about clients that go.
-- - Settings: src/settings.c, with the timer that reads the files again; Settings/LogLevel is about
--   the list of levels, Reads about one reading of the files, Watching about their changes. Log:
--   src/log.h and src/log.c; Log/Subset is about the levels of the settings and of the build.
-- - Host: src/host-service.c. Host/File and Host/Service have the hosted files and the operations
--   rsu_host_service_add, _remove and _lost_client; Host/Http the HTTP requests; Host/View the
--   service as a set of triples of an interface, a client and a file, to which Host/Triples compares
--   the operations; Invariant and Removal are about the tables, Serve about mapped files.
--
-- Bounds: `running_tasks` is a guint, and its wrap at 2 ^ 32 is written out, as are those of the
-- arithmetic on durations and of the comparison of rationals. The ids of idle sources and of hosted
-- files are numbers without bound. No function needs fuel: all loops walk over a list, and a printed
-- unsigned int has ten digits at most. A null pointer dereference, a read past the end of an array
-- and a conversion that C leaves undefined are `none`. A double is the fraction that it is computed
-- from, so that the error of floating point is left out.
--
-- Not modelled: memory and its release; the hash order of tables; the bus name, signals of the
-- operating system and the main function; the D-Bus methods of the introspection data; the messages
-- of the log, but for those of src/log.c; what GLib does with a text that a device's description
-- leaves out, which is a property without a value here; the context manager of src/upnp.c. What
-- GUPnP, GIO and GLib's key files parse and answer is an argument of the functions that use it.
pub mod Prelude
pub mod Dict
pub mod Error
pub mod Task
pub mod Processor
pub mod Glib
pub mod Host
pub mod Upnp
pub mod Device
pub mod Renderer
pub mod Log
pub mod Settings
