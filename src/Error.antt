-- ===== src/Error.antt =====
-- src/error.h and src/error.c: the errors that a D-Bus client can be answered with.
use renderer_service_upnp.Prelude.{String}

-- The messages carry no information that the program reads back, and are left out.
pub data Error : Type 0 where
  bad_path object_not_found bad_query operation_failed bad_result unknown_interface : Error
  unknown_property device_not_found died cancelled not_supported lost_object : Error
  bad_mime host_failed : Error

-- The name under which GDBus sends an error of the domain, after `RSU_SERVICE`.
pub dbus_name : Error → String
dbus_name bad_path = ".BadPath"
dbus_name object_not_found = ".ObjectNotFound"
dbus_name bad_query = ".BadQuery"
dbus_name operation_failed = ".OperationFailed"
dbus_name bad_result = ".BadResult"
dbus_name unknown_interface = ".UnknownInterface"
dbus_name unknown_property = ".UnknownProperty"
dbus_name device_not_found = ".DeviceNotFound"
dbus_name died = ".Died"
dbus_name cancelled = ".Cancelled"
dbus_name not_supported = ".NotSupported"
dbus_name lost_object = ".LostObject"
dbus_name bad_mime = ".BadMime"
dbus_name host_failed = ".HostFailed"
