-- ===== src/Etw/Describe.antt =====
-- `FindPropertyValue` to `BuildFriendlyDetails`: what the controller says of a kernel event.
use inspec_thor.Prelude.{
  ℕ, Bool, not, ◌&&◌, ◌||◌, List, [], ◌∷◌, ◌++◌, Text, literal, text_eq, is_empty, contains, ◌==◌,
  if◌then◌else◌,
}
use inspec_thor.Etw.Event.{EtwKernelProperty, EtwKernelEvent, Guid}

unfoldable pub find_property_value : List EtwKernelProperty → Text → Text
find_property_value [] name = []
find_property_value (prop ∷ properties) name =
    if text_eq prop.name name then prop.value else find_property_value properties name

unfoldable pub first_matching_property_value : List EtwKernelProperty → List Text → Text
unfolding find_property_value
first_matching_property_value properties [] = []
first_matching_property_value properties (name ∷ names) =
    let value = find_property_value properties name in
    if is_empty value then first_matching_property_value properties names else value

unfoldable pub first_property_name_contains : List EtwKernelProperty → Text → Text
first_property_name_contains [] text = []
first_property_name_contains (prop ∷ properties) text =
    if contains prop.name text && not (is_empty prop.value)
    then prop.value
    else first_property_name_contains properties text

unfoldable pub is_guid : Guid → Guid → Bool
is_guid left right =
    left.data1 == right.data1
    && left.data2 == right.data2
    && left.data3 == right.data3
    && text_eq left.data4 right.data4

unfoldable pub make_guid : ℕ → ℕ → ℕ → List ℕ → Guid
make_guid data1 data2 data3 data4 = record {
  data1 = data1;
  data2 = data2;
  data3 = data3;
  data4 = data4;
}

abbrev pub classic_node : List ℕ
classic_node = 0x9d ∷ 0xda ∷ 0x00 ∷ 0xc0 ∷ 0x4f ∷ 0xd7 ∷ 0xba ∷ 0x7c ∷ []

abbrev pub process_guid : Guid
process_guid = make_guid 0x3d6fa8d0 0xfe05 0x11d0 classic_node

abbrev pub thread_guid : Guid
thread_guid = make_guid 0x3d6fa8d1 0xfe05 0x11d0 classic_node

abbrev pub image_load_guid : Guid
image_load_guid =
    make_guid 0x2cb15d1d 0x5fc1 0x11d2 (0xab ∷ 0xe1 ∷ 0x00 ∷ 0xa0 ∷ 0xc9 ∷ 0x11 ∷ 0xf5 ∷ 0x18 ∷ [])

abbrev pub disk_io_guid : Guid
disk_io_guid = make_guid 0x3d6fa8d4 0xfe05 0x11d0 classic_node

abbrev pub file_io_guid : Guid
file_io_guid =
    make_guid 0x90cbdc39 0x4a3e 0x11d1 (0x84 ∷ 0xf4 ∷ 0x00 ∷ 0x00 ∷ 0xf8 ∷ 0x04 ∷ 0x64 ∷ 0xe3 ∷ [])

abbrev pub tcp_ip_guid : Guid
tcp_ip_guid =
    make_guid 0x9a280ac0 0xc8e0 0x11d1 (0x84 ∷ 0xe2 ∷ 0x00 ∷ 0xc0 ∷ 0x4f ∷ 0xb9 ∷ 0x98 ∷ 0xa2 ∷ [])

abbrev pub registry_guid : Guid
registry_guid =
    make_guid 0xae53722e 0xc863 0x11d2 (0x86 ∷ 0x59 ∷ 0x00 ∷ 0xc0 ∷ 0x4f ∷ 0xa3 ∷ 0x21 ∷ 0xa1 ∷ [])

unfoldable pub friendly_kernel_provider_name : Guid → Text
unfolding is_guid make_guid
friendly_kernel_provider_name id =
    if is_guid id process_guid
    then literal "Process"
    else if is_guid id thread_guid
    then literal "Thread"
    else if is_guid id image_load_guid
    then literal "Image Load"
    else if is_guid id disk_io_guid
    then literal "Disk I/O"
    else if is_guid id file_io_guid
    then literal "File I/O"
    else if is_guid id tcp_ip_guid
    then literal "Network TCP/IP"
    else if is_guid id registry_guid
    then literal "Registry"
    else []

unfoldable pub friendly_category : Text → Text
friendly_category provider =
    if contains provider (literal "Process")
    then literal "Process"
    else if contains provider (literal "Thread")
    then literal "Thread"
    else if contains provider (literal "Image")
    then literal "Module"
    else if contains provider (literal "File") || contains provider (literal "Disk")
    then literal "File"
    else if contains provider (literal "Registry")
    then literal "Registry"
    else if contains provider (literal "TCP") || contains provider (literal "Network")
    then literal "Network"
    else literal "Kernel"

unfoldable pub has_opcode : EtwKernelEvent → Bool
has_opcode ev = not (is_empty ev.opcode) && not (text_eq ev.opcode (literal "Event"))

unfoldable pub has_task : EtwKernelEvent → Bool
has_task ev = not (is_empty ev.task) && not (text_eq ev.task (literal "Kernel"))

unfoldable pub friendly_action : EtwKernelEvent → Text
unfolding has_opcode has_task
friendly_action ev =
    if has_opcode ev
    then ev.opcode
    else if text_eq ev.category (literal "Module")
    then literal "Module load/unload"
    else if text_eq ev.category (literal "Registry")
    then literal "Registry access"
    else if text_eq ev.category (literal "File")
    then literal "File or disk access"
    else if text_eq ev.category (literal "Network")
    then literal "Network activity"
    else if text_eq ev.category (literal "Process")
    then literal "Process activity"
    else if text_eq ev.category (literal "Thread")
    then literal "Thread activity"
    else if has_task ev
    then ev.task
    else literal "Kernel event"

unfoldable pub summary_of_category : Text → Text
summary_of_category category =
    if text_eq category (literal "Module")
    then literal "Target process loaded or unloaded executable code"
    else if text_eq category (literal "Registry")
    then literal "Target process touched the Windows registry"
    else if text_eq category (literal "File")
    then literal "Target process performed file or disk I/O"
    else if text_eq category (literal "Network")
    then literal "Target process used network TCP/IP"
    else if text_eq category (literal "Process")
    then literal "Target process lifecycle event"
    else if text_eq category (literal "Thread")
    then literal "Thread activity inside the target process"
    else literal "Kernel event from the target process"

unfoldable pub build_friendly_summary : EtwKernelEvent → Text
unfolding summary_of_category has_opcode has_task
build_friendly_summary ev =
    summary_of_category ev.category
    ++ (if has_task ev
        then literal " ("
          ++ (ev.task ++ ((if has_opcode ev then literal " / " ++ ev.opcode else []) ++ b')' ∷ []))
        else [])
