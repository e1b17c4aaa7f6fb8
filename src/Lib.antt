-- ===== src/Lib.antt =====
-- Modality's ROS 2 hook (modality-ros-hook), a library that is loaded into a ROS process and turns
-- what its nodes do at the middleware layer (rmw) into events on timelines of Modality.
--
-- The shim calls a hook before or after each rmw function. The hooks keep tables of the nodes,
-- publishers, subscriptions, services and clients of the process, read messages out of memory by
-- the introspection type support, and put events into a bounded channel. A thread of its own takes
-- them out and sends each, with its timeline's metadata, through the SDK's client.
--
-- Files, and the code that they model (paths below modality-ros-hook/src):
--   Prelude        shared names, Boolean tests, lists, signed integers, finite maps, texts, and the
--                  parts of Rust's String that the code uses (from_utf8_lossy, trim, split, join).
--   Api            the types of auxon_sdk::api that are passed around.
--   Events         hooks.rs: RosEvent, RmwEvent, ServiceEvent, CapturedMessage, CapturedTime; Time
--                  has to_epoch_nanos and now.
--   Client         the calls of the ingest client, and the parameter Backend that answers them;
--                  Client/Trace says what a history of calls amounts to.
--   Memory         bytes at addresses, slices, C strings, and the parameters of the generated
--                  bindings.
--   Config         config.rs: from_env and the parsing of its variables.
--   Schema         lib.rs: the nested and the flat schemas. Convert has
--                  RosMessageSchema::from_message_type_support, Service has RosServiceSchema,
--                  Flatten has the flattening; Flatten/Spec describes its scalars and arrays bottom
--                  up.
--   Interpret      lib.rs: Values has ros_to_attr_val, Members the interpretation of scalars,
--                  arrays and sequences, Messages that of whole messages, logs and diagnostics.
--   Hooks          hooks.rs: the statics as one state, and Sender::send. Registry has the hooks of
--                  nodes, publishers and subscriptions, Services those of services and clients,
--                  Messages those of messages and of the clock; Machine makes them the actions of
--                  one machine, and Interpretation fills what they ask of the schemas.
--   Processor      message_processor.rs: the state of MessageProcessor and its operations; Timeline
--                  has the metadata, Rmw, Message and Service the three handlers, Loop
--                  message_loop.
--   System         hooks.rs and message_processor.rs together: Sender::new, the thread that it
--                  spawns, and the threads that call hooks, each with its own
--                  LAST_CAPTURED_MESSAGE; their moves come in any order.
--                  The other children of a part hold proofs, and are named for what they are about:
--                  Hooks/Channels, Announced, Alike, Publications, Requests, Truncated, Created and
--                  Destroyed, Interpret/Values/Integers, Interpret/Members/Prefix, Names and Limit,
--                  Interpret/Messages/Events, Log, Diagnostics and Within, Processor/Protocol,
--                  Once, Rule, Delivery, Uncached and Interaction, Schema/Flatten/Leaves, Total and
--                  Converted, Config/Numbers and Topics, Memory/Strings, and all of System.
--   Tests          runs on concrete input, and each theorem at one.
--
-- Correspondence. A method of the processor is an action on its state that returns a value or
-- fails; what it changed before it failed stays changed. The history of the client's calls is part
-- of the state, so that an invariant can speak of it. A hash map is an association list, and its
-- order is no part of what the hooks do (Hooks/Alike). A hook is a function on the state of the
-- hooks; a result `none` is a process that stops, by a null pointer or a panic. The pairs of an
-- interpretation are passed from step to step, and stay when a step fails. Machine integers keep
-- their wrap-around: the number of an event modulo 2^128, to_epoch_nanos modulo 2^64.
--
-- Parameters: the client's answers (any function of the calls so far); what allocation, the system
-- clock and get_gid_for_publisher answer, as arguments; the C structures of the type support, as
-- data, with their functions as functions on the memory; the layout of the runtime's strings and
-- sequences; the crate widestring; BigInt and the text of values of the SDK; the tables of Unicode
-- for is_alphanumeric and to_lowercase. The machine is little-endian with a signed `char` and
-- 64-bit addresses, where `usize` is read like `u64`.
--
-- Fuel: reading a C string has the size of the address space as fuel, which no string exceeds; the
-- decimal text of n has n + 1, more than its digits. All other recursion is on lists, schemas and
-- counts.
--
-- In System a call of a hook is one move. The address of a new object is known to other threads
-- only after its hook has returned, and each table is replaced atomically; so what two calls that
-- overlap do in parts shows only in the order of their events, and where both use one object.
--
-- Not modelled: two calls of hooks that overlap in time, the runtime of the sending thread and the
-- connection of MessageProcessor::new but for whether they succeed, the build script, the
-- generated bindings, the preload shim in C, and what is printed. A buffer size of 0 is left out:
-- the channel of that size cannot be made, and the first event that is sent stops the process. A
-- C string that a hook is given is the text that it decodes to.
mod Prelude
pub mod Api
pub mod Events
pub mod Client
pub mod Memory
pub mod Config
pub mod Interpret
pub mod Hooks
pub mod Schema
pub mod Processor
pub mod System
mod Tests
