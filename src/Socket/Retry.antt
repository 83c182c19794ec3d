-- ===== src/Socket/Retry.antt =====
-- socket_write.go, the retry after joining: when a write that succeeds did so.
use mezon_sdk_go.Prelude.{◌≡◌, refl, ◌⊎◌, inl, inr, Option, true, arith, Bool-cases}
use mezon_sdk_go.Errors.{Error, Result, ok, err}
use mezon_sdk_go.Socket.{Ref, Envelope, Request}
use mezon_sdk_go.Socket.Sending.{Sender}
use mezon_sdk_go.Socket.Write.{
  Exchanges, is_must_join_channel_error, send_request, join_channel_before_retry, after_join,
  retry_after_join, write_with_retry,
}
use mezon_sdk_go.Socket.Data.{ReplyMessageData}

abbrev pub Sending : Type 0
Sending = Sender → Sender × Result (Option Ref)

-- The first attempt gave the result; or the server rejected it as not joined, the join went
-- through, and the second attempt gave it.
abbrev pub Retried : Sending → Sending → Sender × Result (Option Ref) → Option Ref → Type 0
Retried join again r ack =
    (r.1 ≡ ok ack)
    ⊎ ((e : Error) × (channel : Option Ref) × (r.1 ≡ err e)
        × (is_must_join_channel_error e ≡ true)
        × ((join r.0).1 ≡ ok channel)
        × ((again (join r.0).0).1 ≡ ok ack))

after_join-ok :
    (e : Error) (again : Sending) (j : Sender × Result (Option Ref)) (ack : Option Ref)
    → (after_join e again j).1 ≡ ok ack
    → (channel : Option Ref) × (j.1 ≡ ok channel) × ((again j.0).1 ≡ ok ack)
unfolding after_join
after_join-ok e again (s, err x) ack h = absurd (ground arith)
after_join-ok e again (s, ok channel) ack h = (channel, refl, h)

retry_after_join-ok :
    (join again : Sending) (r : Sender × Result (Option Ref)) (ack : Option Ref)
    → (retry_after_join join again r).1 ≡ ok ack
    → Retried join again r ack
unfolding retry_after_join
retry_after_join-ok join again (s, ok x) ack h = inl h
retry_after_join-ok join again (s, err e) ack h = elim (Bool-cases (is_must_join_channel_error e)) [
  | inl must ↦
      let j = after_join-ok e again (join s) ack (rw must at h) in
      inr (e, j.0, refl, must, j.1, j.2)
  | inr other ↦ let clash : err e ≡ ok ack = rw other at h in absurd (ground arith)
]

-- A write that succeeds was accepted at the first attempt, or it was rejected for not having joined
-- the channel, the channel was joined, and the second attempt was accepted: an acknowledgement
-- never comes from anything else, and there is no third attempt.
pub write_with_retry-ok :
    (xs : Exchanges) (d : ReplyMessageData) (request : Request) (field : Envelope → Option Ref)
    (s : Sender) (ack : Option Ref)
    → (write_with_retry xs d request field s).1 ≡ ok ack
    → Retried
        (join_channel_before_retry xs.joining d)
        (send_request xs.second request field)
        (send_request xs.first request field s)
        ack
unfolding write_with_retry
write_with_retry-ok xs d request field s ack h =
    retry_after_join-ok (join_channel_before_retry xs.joining d)
      (send_request xs.second request field) (send_request xs.first request field s) ack h
