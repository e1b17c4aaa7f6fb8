-- ===== src/Hooks/Alike/Runs.antt =====
-- Any sequence of calls and receipts keeps two states alike (modality-ros-hook/src/hooks.rs).
use modality_ros.Hooks.{Hooks, Context}
use modality_ros.Hooks.Machine.{
  Hook, create_node, destroy_node, create_publisher, destroy_publisher, publish, clock_gettime,
  create_subscription, destroy_subscription, take_with_info, create_service, destroy_service,
  create_client, destroy_client, send_request, take_request, send_response, take_response, perform,
}
use modality_ros.Hooks.Alike.{Alike, BothAlike}
use modality_ros.Hooks.Alike.Steps.{
  Alike-after_create_node, Alike-after_destroy_node, BothAlike-after_create_publisher,
  Alike-after_destroy_publisher, BothAlike-after_create_subscription,
  Alike-after_destroy_subscription, BothAlike-after_create_service, Alike-after_destroy_service,
  BothAlike-after_create_client, Alike-after_destroy_client,
}
use modality_ros.Hooks.Alike.Messages.{
  Alike-after_send_request, Alike-after_take_request, Alike-after_send_response,
  Alike-after_take_response, Alike-before_publish, Alike-after_clock_gettime,
  Alike-after_take_with_info,
}

module _ (cx : Context) where
  pub BothAlike-perform :
      (call : Hook) (h g : Hooks) → Alike h g → BothAlike (perform cx call h) (perform cx call g)
  unfolding perform
  BothAlike-perform (create_node name namespace p t clock) h g a =
      Alike-after_create_node cx name namespace p t clock h g a
  BothAlike-perform (destroy_node p clock) h g a = Alike-after_destroy_node cx p clock h g a
  BothAlike-perform (create_publisher n p ts topic gid clock) h g a =
      BothAlike-after_create_publisher cx n p ts topic gid clock h g a
  BothAlike-perform (destroy_publisher p clock) h g a =
      Alike-after_destroy_publisher cx p clock h g a
  BothAlike-perform (publish p mem m) h g a = Alike-before_publish cx p mem m h g a
  BothAlike-perform (clock_gettime id t) h g a = Alike-after_clock_gettime cx id t h g a
  BothAlike-perform (create_subscription n p ts topic clock) h g a =
      BothAlike-after_create_subscription cx n p ts topic clock h g a
  BothAlike-perform (destroy_subscription p clock) h g a =
      Alike-after_destroy_subscription cx p clock h g a
  BothAlike-perform (take_with_info p mem m info) h g a =
      Alike-after_take_with_info cx p mem m info h g a
  BothAlike-perform (create_service n p ts name clock) h g a =
      BothAlike-after_create_service cx n p ts name clock h g a
  BothAlike-perform (destroy_service p clock) h g a = Alike-after_destroy_service cx p clock h g a
  BothAlike-perform (create_client n p ts name clock) h g a =
      BothAlike-after_create_client cx n p ts name clock h g a
  BothAlike-perform (destroy_client p clock) h g a = Alike-after_destroy_client cx p clock h g a
  BothAlike-perform (send_request c mem m id clock) h g a =
      Alike-after_send_request cx c mem m id clock h g a
  BothAlike-perform (take_request p id mem m clock) h g a =
      Alike-after_take_request cx p id mem m clock h g a
  BothAlike-perform (send_response p id mem m clock) h g a =
      Alike-after_send_response cx p id mem m clock h g a
  BothAlike-perform (take_response c n mem m clock) h g a =
      Alike-after_take_response cx c n mem m clock h g a
