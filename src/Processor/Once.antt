-- ===== src/Processor/Once.antt =====
-- The metadata of a node's timeline and of a publisher, sent again (`send_timeline_metadata` and
-- `handle_message` of modality-ros-hook/src/message_processor.rs).
use modality_ros.Prelude.{◌≡◌, true, List, contains, nat_eq, string_eq}
use modality_ros.Api.{TimelineId}
use modality_ros.Events.{PublisherGraphId}
use modality_ros.Processor.{MessageProcessor}
use modality_ros.Processor.Timeline.{publisher_eq}
use modality_ros.Processor.Triple.{Triple}

-- A condition on what has been noted as sent.
abbrev Notes : Type 1
Notes = List TimelineId → List (TimelineId × PublisherGraphId) → Type 0

abbrev Noted : Notes → MessageProcessor → Type 0
Noted P s = P s.created_timelines s.sent_timeline_publisher_metadata

abbrev Created : TimelineId → Notes
Created t created sent = contains created t ≡ true

abbrev Announced : TimelineId × PublisherGraphId → Notes
Announced p created sent = contains sent p ≡ true
