-- ===== src/Handlers/Ids/Owners.antt =====
-- The owner that an order's identifier names (edge/orders.go).
use ndc_mock.Prelude.{◌≡◌, ◌≢◌, refl, Option, none, some, String, ◌<>◌, string_eq, str_eq_ne}
use ndc_mock.Handlers.Ids.{Drawn, new_order_id, behind_dot, or_empty, owner_of}

-- A text without a dot.
abbrev pub IsDotless : String → Type 0
IsDotless String.[] = Unit {0}
IsDotless (String.◌∷◌ c s) = ◌≢◌ {A = String} (String.◌∷◌ c String.[]) "." × IsDotless s

behind_dot-dotless : (s : String) → IsDotless s → behind_dot s ≡ none
unfolding behind_dot
behind_dot-dotless String.[] h = refl
behind_dot-dotless (String.◌∷◌ c s) (ne, h) =
    rw (behind_dot-dotless s h, str_eq_ne (String.◌∷◌ c String.[]) "." ne) refl

behind_dot-last : (s t : String) → IsDotless t → behind_dot (s <> ("." <> t)) ≡ some t
unfolding behind_dot
behind_dot-last String.[] t h = rw (behind_dot-dotless t h) refl
behind_dot-last (String.◌∷◌ c s) t h = rw (behind_dot-last s t h) refl

owner_of-behind :
    (from_url64 : String → Option String) (id t owner : String)
    → behind_dot id ≡ some t
    → from_url64 t ≡ some owner
    → owner_of from_url64 id ≡ owner
unfolding owner_of or_empty
owner_of-behind from_url64 id t owner here reads = rw (here, reads, owner_of) refl

behind_dot-new_order_id :
    (url64 : String → String) (advertise : String) (d : Drawn) (carrier : String)
    → advertise ≢ ""
    → IsDotless (url64 advertise)
    → behind_dot (new_order_id url64 advertise d carrier) ≡ some (url64 advertise)
unfolding new_order_id
behind_dot-new_order_id url64 advertise d carrier ne dotless =
    rw (str_eq_ne advertise "" ne) (behind_dot-last _ (url64 advertise) dotless)

-- An order's identifier names the replica that made it: where the encoder of the addresses writes no
-- dot and the decoder reads back what it writes, the owner of a new identifier is the address of the
-- replica, whatever the carrier and the numbers drawn.
pub owner_of-new_order_id :
    (url64 : String → String) (from_url64 : String → Option String) (advertise : String) (d : Drawn)
    (carrier : String)
    → advertise ≢ ""
    → IsDotless (url64 advertise)
    → from_url64 (url64 advertise) ≡ some advertise
    → owner_of from_url64 (new_order_id url64 advertise d carrier) ≡ advertise
owner_of-new_order_id url64 from_url64 advertise d carrier ne dotless reads =
    owner_of-behind from_url64 (new_order_id url64 advertise d carrier) (url64 advertise) advertise
      (behind_dot-new_order_id url64 advertise d carrier ne dotless) reads
