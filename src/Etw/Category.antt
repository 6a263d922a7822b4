-- ===== src/Etw/Category.antt =====
-- The category of an event of a kernel provider.
use inspec_thor.Prelude.{
  ◌≡◌, refl, List, [], ◌∷◌, Text, literal, contains, text_eq, starts_with, is_empty, false, All,
}
use inspec_thor.Etw.Event.{EventRecord, Guid}
use inspec_thor.Etw.Describe.{
  process_guid, thread_guid, image_load_guid, disk_io_guid, file_io_guid, tcp_ip_guid,
  registry_guid, make_guid, is_guid, friendly_category, friendly_kernel_provider_name,
}
use inspec_thor.Etw.Build.{build_event, or_text, name_event, describe}

abbrev pub kernel_categories : List (Guid × Text)
kernel_categories =
    (process_guid, literal "Process")
    ∷ (thread_guid, literal "Thread")
    ∷ (image_load_guid, literal "Module")
    ∷ (disk_io_guid, literal "File")
    ∷ (file_io_guid, literal "File")
    ∷ (tcp_ip_guid, literal "Network")
    ∷ (registry_guid, literal "Registry")
    ∷ []

build-category :
    (utf8 : Text → Text) (r : EventRecord) (name category : Text)
    → friendly_kernel_provider_name r.provider_id ≡ name
    → is_empty name ≡ false
    → friendly_category name ≡ category
    → (build_event utf8 r).category ≡ category
unfolding build_event name_event describe or_text
build-category utf8 r name category named nonempty same = rw (named, nonempty) same

-- An event of one of the seven kernel providers has that provider's category, whatever provider, task
-- and opcode the event's metadata name, and whether there is metadata at all.
pub build_event-category :
    (utf8 : Text → Text) (r : EventRecord)
    → All
        (λ known. (build_event utf8 (record r { provider_id = known.0 })).category ≡ known.1)
        kernel_categories
unfolding friendly_kernel_provider_name is_guid make_guid text_eq friendly_category contains
    starts_with literal
build_event-category utf8 r = (
  build-category utf8 _ (literal "Process") (literal "Process") refl refl refl,
  (
    build-category utf8 _ (literal "Thread") (literal "Thread") refl refl refl,
    (
      build-category utf8 _ (literal "Image Load") (literal "Module") refl refl refl,
      (
        build-category utf8 _ (literal "Disk I/O") (literal "File") refl refl refl,
        (
          build-category utf8 _ (literal "File I/O") (literal "File") refl refl refl,
          (
            build-category utf8 _ (literal "Network TCP/IP") (literal "Network") refl refl refl,
            (build-category utf8 _ (literal "Registry") (literal "Registry") refl refl refl, tt),
          ),
        ),
      ),
    ),
  ),
)
