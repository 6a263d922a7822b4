-- ===== src/Etw/Event.antt =====
-- The structs of src/controller/etw_monitor.h, and what an ETW record and the TDH library hold.
use inspec_thor.Prelude.{ℕ, Bool, List, Option, Text}

pub record EtwKernelProperty : Type 0 where
  pub name : Text
  pub value : Text

pub record EtwKernelEvent : Type 0 where
  pub timestamp : ℕ
  pub process_id : ℕ
  pub thread_id : ℕ
  pub provider : Text
  pub task : Text
  pub opcode : Text
  pub category : Text
  pub action : Text
  pub details : Text
  pub summary : Text
  pub properties : List EtwKernelProperty
  pub event_id : ℕ

pub record Guid : Type 0 where
  pub data1 : ℕ
  pub data2 : ℕ
  pub data3 : ℕ
  pub data4 : List ℕ

-- The TDH_INTYPE_ and TDH_OUTTYPE_ constants that the code names; `other` is any other.
pub data InType : Type 0 where
  unicode_string ansi_string boolean : InType
  int8 int16 int32 int64 uint8 uint16 uint32 uint64 : InType
  pointer hex_int32 hex_int64 guid other_in : InType

pub data OutType : Type 0 where
  ipv4 ipv6 port out_hex_int32 out_hex_int64 other_out : OutType

-- EVENT_PROPERTY_INFO, with what TdhGetPropertySize and TdhGetProperty answer for the property;
-- `none` is a status other than ERROR_SUCCESS, and `bytes` the buffer, of that size, that is filled in.
pub record PropertyInfo : Type 0 where
  pub is_struct : Bool
  pub name_offset : ℕ
  pub in_type : InType
  pub out_type : OutType
  pub size : Option ℕ
  pub bytes : Option (List ℕ)

-- TRACE_EVENT_INFO in its buffer; `text_at` is the wide text at an offset into it.
pub record TraceInfo : Type 0 where
  pub buffer_size : ℕ
  pub text_at : ℕ → Text
  pub provider_name_offset : ℕ
  pub task_name_offset : ℕ
  pub opcode_name_offset : ℕ
  pub properties : List PropertyInfo

-- EVENT_RECORD, with what TdhGetEventInformation answers: the size that the first call asks for, if
-- it reports ERROR_INSUFFICIENT_BUFFER, and what the second call fills in, if it succeeds.
pub record EventRecord : Type 0 where
  pub time_stamp : ℕ
  pub process_id : ℕ
  pub thread_id : ℕ
  pub event_id : ℕ
  pub event_opcode : ℕ
  pub provider_id : Guid
  pub needed_size : Option ℕ
  pub info : Option TraceInfo
