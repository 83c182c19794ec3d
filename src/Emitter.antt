-- ===== src/Emitter.antt =====
-- emitter.go: the handlers of each event, in the order of their registration. A handler is the
-- number of its closure; emitting is the calls it makes.
pub mod Order
use mezon_sdk_go.Prelude.{
  ℕ, List, [], ◌∷◌, ◌++◌, Option, none, some, Bytes, lookup, insert, bytes_eq,
}

abbrev pub Handlers : Type 0
Handlers = List (Bytes × List ℕ)

unfoldable pub new_emitter : Handlers
new_emitter = []

-- A missing event reads as no handlers.
unfoldable pub handlers_of : Bytes → Handlers → List ℕ
handlers_of event e = elim (lookup event e) [ none ↦ [] | some hs ↦ hs ]

unfoldable pub on : Bytes → ℕ → Handlers → Handlers
on event h e = insert event (handlers_of event e ++ (h ∷ [])) e

unfoldable pub calls : {P : Type 0} → P → List ℕ → List (ℕ × P)
calls payload [] = []
calls payload (h ∷ hs) = (h, payload) ∷ calls payload hs

unfoldable pub emit : {P : Type 0} → Bytes → P → Handlers → List (ℕ × P)
emit event payload e = calls payload (handlers_of event e)
