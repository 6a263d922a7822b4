-- ===== src/Etw/Details.antt =====
-- `BuildFriendlyDetails`.
use inspec_thor.Prelude.{
  not, ◌&&◌, List, [], ◌∷◌, ◌++◌, Text, literal, text_eq, is_empty, if◌then◌else◌,
}
use inspec_thor.Etw.Event.{EtwKernelProperty, EtwKernelEvent}
use inspec_thor.Etw.Describe.{first_matching_property_value, first_property_name_contains}

-- Each category's text, empty where the code goes on to the next test.
unfoldable pub module_details : List EtwKernelProperty → Text
module_details properties =
    let image = first_matching_property_value properties (
      literal "ImageName"
      ∷ literal "FileName"
      ∷ literal "ImageFileName"
      ∷ literal "ModuleName"
      ∷ []) in
    if is_empty image then [] else literal "Image: " ++ image

unfoldable pub registry_details : List EtwKernelProperty → Text
registry_details properties =
    let key =
      first_matching_property_value properties
        (literal "KeyName" ∷ literal "RelativeName" ∷ literal "ObjectName" ∷ []) in
    let value =
      first_matching_property_value properties
        (literal "ValueName" ∷ literal "ValueKeyName" ∷ []) in
    if not (is_empty key) && not (is_empty value)
    then ((literal "Key: " ++ key) ++ literal " | Value: ") ++ value
    else if not (is_empty key)
    then literal "Key: " ++ key
    else if not (is_empty value)
    then literal "Value: " ++ value
    else []

-- detail, with the labelled value behind it if there is one.
unfoldable pub add_detail : Text → Text → Text → Text
add_detail label value detail =
    if is_empty value
    then detail
    else detail ++ ((if is_empty detail then [] else literal " | ") ++ label) ++ value

unfoldable pub process_details : List EtwKernelProperty → Text
unfolding add_detail
process_details properties =
    let image = first_matching_property_value properties (
      literal "ImageFileName"
      ∷ literal "ProcessName"
      ∷ literal "ImageName"
      ∷ literal "FileName"
      ∷ []) in
    let command_line = first_matching_property_value properties (literal "CommandLine" ∷ []) in
    let parent_pid =
      first_matching_property_value properties
        (literal "ParentID" ∷ literal "ParentProcessID" ∷ literal "ParentProcessId" ∷ []) in
    add_detail (literal "Parent PID: ") parent_pid
      (add_detail (literal "Command: ") command_line (add_detail (literal "Image: ") image []))

unfoldable pub file_details : List EtwKernelProperty → Text
file_details properties =
    let file =
      first_matching_property_value properties
        (literal "FileName" ∷ literal "OpenPath" ∷ literal "Path" ∷ literal "FilePath" ∷ []) in
    if is_empty file then [] else literal "File: " ++ file

unfoldable pub add_port : Text → Text → Text
add_port address port = if is_empty port then address else address ++ b':' ∷ port

unfoldable pub network_details : List EtwKernelProperty → Text
unfolding add_port
network_details properties =
    let source =
      add_port
        (first_matching_property_value properties
          (literal "saddr" ∷ literal "SourceAddress" ∷ literal "LocalAddress" ∷ []))
        (first_matching_property_value properties
          (literal "sport" ∷ literal "SourcePort" ∷ literal "LocalPort" ∷ [])) in
    let dest =
      add_port
        (first_matching_property_value properties
          (literal "daddr" ∷ literal "DestinationAddress" ∷ literal "RemoteAddress" ∷ []))
        (first_matching_property_value properties
          (literal "dport" ∷ literal "DestinationPort" ∷ literal "RemotePort" ∷ [])) in
    if not (is_empty source) && not (is_empty dest)
    then ((literal "Connection: " ++ source) ++ literal " -> ") ++ dest
    else if not (is_empty dest)
    then literal "Remote: " ++ dest
    else []

unfoldable pub category_details : EtwKernelEvent → Text
unfolding module_details registry_details process_details file_details network_details
category_details ev =
    if text_eq ev.category (literal "Module")
    then module_details ev.properties
    else if text_eq ev.category (literal "Registry")
    then registry_details ev.properties
    else if text_eq ev.category (literal "Process")
    then process_details ev.properties
    else if text_eq ev.category (literal "File")
    then file_details ev.properties
    else if text_eq ev.category (literal "Network")
    then network_details ev.properties
    else []

unfoldable pub named_object_details : List EtwKernelProperty → Text
named_object_details properties =
    let named_object = first_property_name_contains properties (literal "Name") in
    if is_empty named_object then [] else literal "Object: " ++ named_object

unfoldable pub build_friendly_details : EtwKernelEvent → Text
unfolding category_details named_object_details
build_friendly_details ev =
    let detail = category_details ev in
    if is_empty detail then named_object_details ev.properties else detail
