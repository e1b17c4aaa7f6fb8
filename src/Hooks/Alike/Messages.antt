-- ===== src/Hooks/Alike/Messages.antt =====
-- Each hook that only sends keeps two states alike (modality-ros-hook/src/hooks.rs).
use modality_ros.Prelude.{
  ℕ, ◌≡◌, ◌||◌, Bool, true, false, Option, none, some, List, [], ◌∷◌, map, ◌==◌, nat_eq, subst,
  refl, if◌then◌else◌,
}
use modality_ros.Prelude.Int.{ℤ}
use modality_ros.Prelude.Dict.{lookup}
use modality_ros.Events.{CapturedMessageWithTime, message}
use modality_ros.Memory.{Memory}
use modality_ros.Schema.{flat_size}
use modality_ros.Hooks.{Hooks, Context}
use modality_ros.Hooks.Services.{
  Client, RequestId, bytes_at, after_send_request, after_take_request, after_send_response,
  after_take_response,
}
use modality_ros.Hooks.Messages.{
  MessageInfo, TimeSpec, before_publish, after_clock_gettime, after_take_with_info, send_all,
  stamped, taken,
}
use modality_ros.Hooks.Alike.{Alike, Alike-send, Alike-send_found}

-- The same test of both
Alike-if :
    (b : Bool) (h h' g g' : Hooks)
    → Alike h g
    → Alike h' g'
    → Alike (if b then h else h') (if b then g else g')
Alike-if true h h' g g' y n = y
Alike-if false h h' g g' y n = n

-- What follows a look-up, when both find the same or neither finds anything
Alike-found :
    {A : Type 0}
    → (o o' : Option A) (k k' : A → Hooks) (h g : Hooks) → o ≡ o'
    → ((x : A) → Alike (k x) (k' x))
    → Alike h g
    → Alike (elim o [ none ↦ h | some x ↦ k x ]) (elim o' [ none ↦ g | some x ↦ k' x ])
Alike-found o o' k k' h g same f a =
    subst (λ x. Alike (elim o [ none ↦ h | some y ↦ k y ]) (elim x [ none ↦ g | some y ↦ k' y ]))
      same
      (elim o
        as (λ x. Alike (elim x [ none ↦ h | some y ↦ k y ]) (elim x [ none ↦ g | some y ↦ k' y ])) [
          | none ↦ a
          | some x ↦ f x
        ])

module _ (cx : Context) where
  pub Alike-after_send_request :
      (c : Client) (mem : Memory) (m : ℕ) (id : ℤ) (clock : Option ℕ) (h g : Hooks)
      → Alike h g
      → Alike (after_send_request cx c mem m id clock h) (after_send_request cx c mem m id clock g)
  unfolding after_send_request
  Alike-after_send_request c mem m id clock h g a =
      Alike-send_found cx (lookup c.address h.clients) (lookup c.address g.clients) _ h g
        (a.4 c.address) a

  pub Alike-after_take_request :
      (p : ℕ) (id : RequestId) (mem : Memory) (m : ℕ) (clock : Option ℕ) (h g : Hooks)
      → Alike h g
      → Alike (after_take_request cx p id mem m clock h) (after_take_request cx p id mem m clock g)
  unfolding after_take_request
  Alike-after_take_request p id mem m clock h g a =
      Alike-send_found cx (lookup p h.services) (lookup p g.services) _ h g (a.3 p) a

  pub Alike-after_send_response :
      (p : ℕ) (id : RequestId) (mem : Memory) (m : ℕ) (clock : Option ℕ) (h g : Hooks)
      → Alike h g
      → Alike
          (after_send_response cx p id mem m clock h)
          (after_send_response cx p id mem m clock g)
  unfolding after_send_response
  Alike-after_send_response p id mem m clock h g a =
      Alike-send_found cx (lookup p h.services) (lookup p g.services) _ h g (a.3 p) a

  pub Alike-after_take_response :
      (c : Client) (n : ℤ) (mem : Memory) (m : ℕ) (clock : Option ℕ) (h g : Hooks)
      → Alike h g
      → Alike (after_take_response cx c n mem m clock h) (after_take_response cx c n mem m clock g)
  unfolding after_take_response
  Alike-after_take_response c n mem m clock h g a =
      Alike-send_found cx (lookup c.address h.clients) (lookup c.address g.clients) _ h g
        (a.4 c.address) a

  Alike-send_all :
      (msgs : List CapturedMessageWithTime) (h g : Hooks)
      → Alike h g
      → Alike (send_all cx msgs h) (send_all cx msgs g)
  unfolding send_all
  Alike-send_all [] h g a = a
  Alike-send_all (m ∷ msgs) h g a = Alike-send_all msgs _ _ (Alike-send cx (message m) h g a)

  pub Alike-before_publish :
      (p : ℕ) (mem : Memory) (m : ℕ) (h g : Hooks)
      → Alike h g
      → Alike (before_publish cx p mem m h) (before_publish cx p mem m g)
  unfolding before_publish
  Alike-before_publish p mem m h g a =
      let (n, pubs, s, v, c, w, ch) = a in
      Alike-if (p == 0 || m == 0) h _ g _ a (
        Alike-found (lookup p h.publishers) (lookup p g.publishers) _ _ h g (pubs.0 p)
          (λ x. (n, pubs, s, v, c, refl, ch)) a)

  pub Alike-after_clock_gettime :
      (id : ℕ) (t : TimeSpec) (h g : Hooks)
      → Alike h g
      → Alike (after_clock_gettime cx id t h) (after_clock_gettime cx id t g)
  unfolding after_clock_gettime
  Alike-after_clock_gettime id t h g a =
      let (n, pubs, s, v, c, w, ch) = a in
      Alike-if (id == 0) _ h _ g
        (Alike-found h.last_captured_message g.last_captured_message _ _ h g w
          (λ msgs. Alike-send_all (map (stamped cx t) msgs) _ _ (n, pubs, s, v, c, refl, ch)) a)
        a

  pub Alike-after_take_with_info :
      (p : ℕ) (mem : Memory) (m : ℕ) (info : MessageInfo) (h g : Hooks)
      → Alike h g
      → Alike (after_take_with_info cx p mem m info h) (after_take_with_info cx p mem m info g)
  unfolding after_take_with_info
  Alike-after_take_with_info p mem m info h g a =
      Alike-found (lookup p h.subscriptions) (lookup p g.subscriptions) _ _ h g (a.2 p)
        (λ s.
          Alike-send_all
            (map (taken cx s info) (
              cx.interpreter.interpret_potentially_compound_message mem s.message_schema
                (bytes_at m (flat_size s.message_schema))))
            h g a)
        a
