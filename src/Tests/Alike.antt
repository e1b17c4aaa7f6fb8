-- ===== src/Tests/Alike.antt =====
-- The hooks run on tables that keep their entries in another order.
use modality_ros.Prelude.{some, none, List, [], ◌∷◌}
use modality_ros.Prelude.Dict.Same.{Same}
use modality_ros.Hooks.{Hooks, NodeState, PublisherState, initial}
use modality_ros.Hooks.Machine
use modality_ros.Hooks.Machine.{Action}
use modality_ros.Hooks.Alike.{Alike}
use modality_ros.Tests.Schema.{pose}
use modality_ros.Tests.Hooks.{nothing_there, wall, publisher_or}

abbrev node : NodeState
node = record { namespace = "/"; name = "talker"; timeline_id = 7 }

abbrev other_node : NodeState
other_node = record { namespace = "/"; name = "listener"; timeline_id = 8 }

abbrev publisher : PublisherState
publisher = publisher_or none

abbrev one_order : Hooks
one_order = record initial {
  nodes = (100, node) ∷ (101, other_node) ∷ [];
  publishers = (200, publisher) ∷ (201, publisher) ∷ [];
}

abbrev other_order : Hooks
other_order = record initial {
  nodes = (101, other_node) ∷ (100, node) ∷ [];
  publishers = (201, publisher) ∷ (200, publisher) ∷ [];
}

abbrev actions : List Action
actions =
    Machine.hook (Machine.create_publisher 101 202 pose "/pose" (some (1 ∷ [])) (some 51))
    ∷ Machine.hook (Machine.destroy_publisher 200 (some 52))
    ∷ Machine.recv
    ∷ Machine.hook (Machine.publish 202 nothing_there 4000)
    ∷ Machine.hook (Machine.clock_gettime 0 wall)
    ∷ []
