-- ===== src/Spans/Messaging.antt =====
-- trace.go: the attributes of messaging spans.
use tel.Base.Int.{ℤ}
use tel.Base.Text.{Text, bytes}

-- attribute.KeyValue, of a text or a number
pub data MessagingAttr : Type 0 where
  string_attr : Text → Text → MessagingAttr
  int64_attr : Text → ℤ → MessagingAttr

abbrev pub messaging_operation : Text
messaging_operation = bytes "messaging.operation"

abbrev pub messaging_system : MessagingAttr
messaging_system = string_attr (bytes "messaging.system") (bytes "nats")

abbrev pub messaging_operation_publish : MessagingAttr
messaging_operation_publish = string_attr messaging_operation (bytes "publish")

abbrev pub messaging_operation_process : MessagingAttr
messaging_operation_process = string_attr messaging_operation (bytes "process")

abbrev pub messaging_operation_request : MessagingAttr
messaging_operation_request = string_attr messaging_operation (bytes "request")

abbrev pub messaging_operation_reply : MessagingAttr
messaging_operation_reply = string_attr messaging_operation (bytes "reply")

abbrev pub messaging_subject : Text → MessagingAttr
messaging_subject subject = string_attr (bytes "messaging.destination") subject

abbrev pub messaging_stream : Text → MessagingAttr
messaging_stream stream = string_attr (bytes "messaging.nats.stream") stream

abbrev pub messaging_consumer : Text → MessagingAttr
messaging_consumer consumer = string_attr (bytes "messaging.nats.consumer") consumer

abbrev pub messaging_stream_sequence : ℤ → MessagingAttr
messaging_stream_sequence seq = int64_attr (bytes "messaging.nats.stream_sequence") seq

abbrev pub messaging_delivery_count : ℤ → MessagingAttr
messaging_delivery_count n = int64_attr (bytes "messaging.nats.delivery_count") n
