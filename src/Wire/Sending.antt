-- ===== src/Wire/Sending.antt =====
-- When SendResult of database/source/workmanager/work_manager.cc succeeds.
use mathlib.Core.Path.{subst}
use mathlib.Core.Option.{some-injective}
use open_mem_db.Prelude.{
  ℕ, ◌+◌, ◌%◌, ◌^◌, ◌≡◌, ◌↔◌, refl, Bool, true, false, some, List, [], Option-cases, inl, inr,
}
use open_mem_db.Result.{success}
use open_mem_db.Engine.{JointResult, of_command, of_query}
use open_mem_db.Wire.{Memory}
use open_mem_db.Wire.Packets.{ResultMetaDataPacket, ResultPacket}
use open_mem_db.Wire.Server.{
  SysSend, accepted, would_block, failed, Delivery, send_both, connection_send, send_packets,
  send_query, send_result, query_packet, query_metadata,
}

abbrev pub IsAccepted : SysSend → Type 0
IsAccepted (accepted n) = Unit
IsAccepted would_block = ⊥
IsAccepted (failed e) = ⊥

-- What a delivery says of the system's answers.
abbrev pub Faithful : Bool → SysSend → SysSend → Delivery → Type 0
Faithful valid r1 r2 v =
    ((v.returned ≡ true) ↔ ((valid ≡ true) × IsAccepted r1 × IsAccepted r2))
    × (¬ ((valid ≡ true) × IsAccepted r1) → v.sent ≡ [])

send_both-Faithful :
    (valid : Bool) (r1 r2 : SysSend) (first second : List ℕ)
    → Faithful valid r1 r2 (send_both valid r1 r2 first second)
unfolding send_both connection_send
send_both-Faithful false r1 r2 first second = ((λ e. cc, λ h. h.0), λ h. refl)
send_both-Faithful true would_block r2 first second = ((λ e. cc, λ h. absurd h.1), λ h. refl)
send_both-Faithful true (failed e) r2 first second = ((λ e. cc, λ h. absurd h.1), λ h. refl)
send_both-Faithful true (accepted n) would_block first second =
    ((λ e. cc, λ h. absurd h.2), λ h. absurd (h (refl, tt)))
send_both-Faithful true (accepted n) (failed e) first second =
    ((λ e. cc, λ h. absurd h.2), λ h. absurd (h (refl, tt)))
send_both-Faithful true (accepted n) (accepted m) first second =
    ((λ e. (refl, tt, tt), λ h. refl), λ h. absurd (h (refl, tt)))

module _ (valid : Bool) (r1 r2 : SysSend) (heap1 heap2 : Memory) where
  send_packets-Faithful :
      (m : ResultMetaDataPacket) (p : ResultPacket)
      → Faithful valid r1 r2 (send_packets valid r1 r2 heap1 heap2 m p)
  unfolding send_packets
  send_packets-Faithful m p = send_both-Faithful valid r1 r2 _ _

  sent_is :
      (m : ResultMetaDataPacket) (p : ResultPacket) (v : Delivery)
      → some (send_packets valid r1 r2 heap1 heap2 m p) ≡ some v
      → Faithful valid r1 r2 v
  sent_is m p v e = subst (Faithful valid r1 r2) (some-injective _ _ e) (send_packets-Faithful m p)

  -- The delivery of a result that fits its packets: SendResult returns true exactly when the
  -- connection is valid and the system takes some of each packet; and if the connection is not
  -- valid or the first packet is not taken, nothing is sent.
  pub send_result-Faithful :
      (j : JointResult) (v : Delivery)
      → send_result valid r1 r2 heap1 heap2 j ≡ some v
      → Faithful valid r1 r2 v
  unfolding send_result send_query
  send_result-Faithful (of_command r) v e = sent_is _ _ v e
  send_result-Faithful (of_query d) v e = elim (Option-cases (query_packet success d)) [
    | inl no_packet ↦ absurd (cc (rw (no_packet, send_query) at e))
    | inr (p, packed) ↦
        let size = (9 + p.result_size + 1) % 2 ^ 32 in
        let e' = rw (packed, send_query) at e in
        elim (Option-cases (query_metadata success d size)) [
          | inl no_metadata ↦ absurd (cc (rw (no_metadata, send_query) at e'))
          | inr (m, described) ↦ sent_is m p v (rw (described, send_query) at e')
        ]
  ]
