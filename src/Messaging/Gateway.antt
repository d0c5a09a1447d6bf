-- ===== src/Messaging/Gateway.antt =====
-- src/modules/realtime/realtime.gateway.ts: events emitted to the sockets of a room.
use back_end.Prelude.{String}
use back_end.Database.Json.{Json}
use back_end.Database.Entities.{Uuid}
use back_end.World.{Room, session_room, emitted, Action, modify}
use back_end.Messaging.Publisher.{with_sent}

abbrev pub emit_to_room : Room → String → Json → Action (Unit {0})
emit_to_room room event payload = modify (with_sent (emitted room event payload))

abbrev pub emit_to_session : Uuid → String → Json → Action (Unit {0})
emit_to_session session_id = emit_to_room (session_room session_id)
