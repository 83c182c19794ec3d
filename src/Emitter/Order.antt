-- ===== src/Emitter/Order.antt =====
-- emitter.go: which handlers an event calls after any registrations.
use mezon_sdk_go.Prelude.{
  ℕ, ◌≡◌, refl, sym, ap, ◌∙◌, List, [], ◌∷◌, ◌++◌, Option, none, some, Bytes, lookup, insert,
  bytes_eq, same_bytes, lookup-insert, if◌then◌else◌, arith, append-nil, append_assoc, Bool-cases,
  inl, inr, same_bytes→≡,
}
use mezon_sdk_go.Emitter.{Handlers, new_emitter, handlers_of, on, calls, emit}

-- Registrations, the first first.
abbrev pub register_all : List (Bytes × ℕ) → Handlers → Handlers
register_all [] e = e
register_all ((event, h) ∷ rest) e = register_all rest (on event h e)

-- The handlers registered for one event, in order.
abbrev pub registered_for : Bytes → List (Bytes × ℕ) → List ℕ
registered_for event [] = []
registered_for event ((other, h) ∷ rest) =
    (if same_bytes other event then h ∷ [] else []) ++ registered_for event rest

-- A missing key as no handlers.
abbrev or_nil : Option (List ℕ) → List ℕ
or_nil none = []
or_nil (some hs) = hs

handlers_of-insert :
    (event other : Bytes) (hs : List ℕ) (e : Handlers)
    → handlers_of event (insert other hs e)
      ≡ (if same_bytes other event then hs else handlers_of event e)
unfolding handlers_of
handlers_of-insert event other hs e = ap or_nil (lookup-insert other event hs e) ∙ ground arith

handlers_of-on :
    (event other : Bytes) (h : ℕ) (e : Handlers)
    → handlers_of event (on other h e)
      ≡ handlers_of event e ++ (if same_bytes other event then h ∷ [] else [])
unfolding on
handlers_of-on event other h e =
    handlers_of-insert event other (handlers_of other e ++ (h ∷ [])) e
    ∙ elim (Bool-cases (same_bytes other event)) [
      | inl same ↦ rw same (ap (λ x. handlers_of x e ++ (h ∷ [])) (same_bytes→≡ other event same))
      | inr differ ↦ rw differ (sym (append-nil (handlers_of event e)))
    ]

handlers_of-register_all :
    (event : Bytes) (rs : List (Bytes × ℕ)) (e : Handlers)
    → handlers_of event (register_all rs e) ≡ handlers_of event e ++ registered_for event rs
handlers_of-register_all event [] e = sym (append-nil (handlers_of event e))
handlers_of-register_all event ((other, h) ∷ rest) e =
    handlers_of-register_all event rest (on other h e)
    ∙ ap (λ hs. hs ++ registered_for event rest) (handlers_of-on event other h e)
    ∙ append_assoc (handlers_of event e) (if same_bytes other event then h ∷ [] else [])
        (registered_for event rest)

empty_handlers :
    (event : Bytes) (rs : List (Bytes × ℕ))
    → handlers_of event new_emitter ++ registered_for event rs ≡ registered_for event rs
unfolding handlers_of new_emitter lookup
empty_handlers event rs = refl

-- An emitted event calls exactly the handlers that were registered under its name, each as often as
-- it was registered and in the order of registration, all with the payload; handlers of other
-- events are not called.
pub emit-register_all :
    {P : Type 0} (event : Bytes) (payload : P) (rs : List (Bytes × ℕ))
    → emit event payload (register_all rs new_emitter) ≡ calls payload (registered_for event rs)
unfolding emit
emit-register_all event payload rs =
    ap (calls payload) (handlers_of-register_all event rs new_emitter ∙ empty_handlers event rs)
