-- ===== src/Manager/Routing/Receiving.antt =====
-- The invariant of Manager.Routing through ReceiveCommand, for one connection and for all of them.
use mathlib.Core.Path.{subst}
use open_mem_db.Prelude.{
  ℕ, suc, ◌+◌, ◌%◌, ◌^◌, ◌<◌, ◌≡◌, refl, ap, ◌∙◌, ◌⊎◌, inl, inr, Bool, true, false, Option, none,
  some, List, [], ◌∷◌, ◌++◌, arith, String, length, append-nil, append_assoc, length-append,
  length-snoc, Option-cases, Every,
}
use open_mem_db.Tervel.{Tervel}
use open_mem_db.Store.{DataStore}
use open_mem_db.Wire.{Memory}
use open_mem_db.Client.Request.{
  ServerRecv, RecvStatus, connection_recv, d_recv_full, d_recv_part, e_recv, e_close,
  command_buffer, command_message,
}
use open_mem_db.Builder.{StatementBuilder}
use open_mem_db.Sql.Token.{TokenPair}
use open_mem_db.Manager.Routing.Accepting.{accept_command-Routed}
use open_mem_db.Manager.{
  Sent, Connection, Asked, bytes_of, Manager, accept_command, receive_command, receive_all,
}
use open_mem_db.Manager.Routing.{command_of, asked_from, last_number, heard, Routed}

module _ ⦃t : Tervel⦄ (stof : String → Option ℕ)
    (grammar : DataStore → List TokenPair → StatementBuilder → Option StatementBuilder)
    (fuel : ℕ) where
  module _ (out : List Sent) where
    module _ (h : List Asked) (m : Manager) (ok : Routed stof grammar fuel out h m) where
      idle : Routed stof grammar fuel out (h ++ []) m
      idle = rw (append-nil h) ok

      message_case :
          (conn : Connection) (command : List ℕ)
          → suc (length h) < 2 ^ 32
          → Every
              (λ (p : Bool × Manager).
                Routed stof grammar fuel out (h ++ asked_from conn m.job_number (some command)) p.1)
              (elim (accept_command conn command m) [ none ↦ none | some m' ↦ some (false, m') ])
      message_case conn command few =
          let k = accept_command-Routed stof grammar fuel out h m ok conn command few in
          elim (Option-cases (accept_command conn command m)) [
            | inl e ↦ rw (e) tt
            | inr (m', e) ↦ rw (e) (rw (e) at k)
          ]

    -- What receive_command does, by the command that comes.
    abbrev Received : Memory → Connection → ServerRecv → Manager → Type 0
    Received buffer conn r m =
        ((command_of buffer conn r ≡ none) × (receive_command buffer conn r m ≡ none))
        ⊎ (((command_of buffer conn r ≡ none)
              × ((gone : Bool) × (receive_command buffer conn r m ≡ some (gone, m))))
            ⊎ ((c : List ℕ) × (command_of buffer conn r ≡ some c)
                × (receive_command buffer conn r m
                    ≡ elim (accept_command conn c m) [ none ↦ none | some m' ↦ some (false, m') ])))

    receive_command-cases :
        (buffer : Memory) (conn : Connection) (r : ServerRecv) (m : Manager)
        → Received buffer conn r m
    unfolding receive_command
    receive_command-cases buffer conn r m = status (connection_recv conn.is_valid r) refl
      where
        status : (s : RecvStatus) → connection_recv conn.is_valid r ≡ s → Received buffer conn r m
        status d_recv_part e =
            inr (inl (rw (command_of, e) refl, (false, rw (receive_command, e) refl)))
        status e_recv e = inr (inl (rw (command_of, e) refl, (true, rw (receive_command, e) refl)))
        status e_close e = inr (inl (rw (command_of, e) refl, (true, rw (receive_command, e) refl)))
        status d_recv_full e =
            elim (Option-cases (command_message (command_buffer buffer (bytes_of r)))) [
              | inl f ↦ inl (rw (command_of, e, f) refl, rw (receive_command, e, f) refl)
              | inr (c, f) ↦
                  inr (inr (c, rw (command_of, e, f) refl, rw (receive_command, e, f) refl))
            ]

    receive_command-Routed :
        (h : List Asked) (m : Manager) (ok : Routed stof grammar fuel out h m) (buffer : Memory)
        (conn : Connection) (r : ServerRecv)
        → length h + length (asked_from conn m.job_number (command_of buffer conn r)) < 2 ^ 32
        → Every
            (λ (p : Bool × Manager).
              Routed stof grammar fuel out
                (h ++ asked_from conn m.job_number (command_of buffer conn r))
                p.1)
            (receive_command buffer conn r m)
    receive_command-Routed h m ok buffer conn r few = elim (receive_command-cases buffer conn r m) [
      | inl (silent, e) ↦ rw (e) tt
      | inr (inl (silent, (gone, e))) ↦ rw (e, silent) (idle h m ok)
      | inr (inr (c, came, e)) ↦
          rw (e, came) (message_case h m ok conn c (omega (arith, rw (came) at few)))
    ]

    next_number :
        (h : List Asked) (m m' : Manager) (conn : Connection) (c : Option (List ℕ))
        → Routed stof grammar fuel out h m
        → Routed stof grammar fuel out (h ++ asked_from conn m.job_number c) m'
        → length h + length (asked_from conn m.job_number c) < 2 ^ 32
        → m'.job_number ≡ last_number m.job_number (asked_from conn m.job_number c)
    next_number h m m' conn none ok ok' few =
        omega (arith, ok'.counted, ok.counted, ap length (append-nil h))
    next_number h m m' conn (some c) ok ok' few = omega (
      arith,
      ok'.counted,
      ok.counted,
      few,
      length-snoc h
          (record { connection = conn; number = (m.job_number + 1) % 2 ^ 32; command = c }),
    )

    -- The connections that the loop removes make no difference.
    pub receive_all-Routed :
        (buffer : Memory) (recvs : ℕ → ServerRecv) (conns : List Connection) (h : List Asked)
        (m : Manager)
        → Routed stof grammar fuel out h m
        → length h + length (heard buffer recvs conns m.job_number) < 2 ^ 32
        → Every
            (λ (p : List Connection × Manager).
              Routed stof grammar fuel out (h ++ heard buffer recvs conns m.job_number) p.1)
            (receive_all buffer recvs conns m)
    unfolding receive_all
    receive_all-Routed buffer recvs [] h m ok few = rw (append-nil h) ok
    receive_all-Routed buffer recvs (conn ∷ conns) h m ok few =
        let c = command_of buffer conn (recvs conn.socket_fd) in
        let here = asked_from conn m.job_number c in
        let later = heard buffer recvs conns (last_number m.job_number here) in
        let size : length (here ++ later) ≡ length here + length later = length-append here later in
        let first =
          receive_command-Routed h m ok buffer conn (recvs conn.socket_fd)
            (omega (arith, few, size)) in
        elim (Option-cases (receive_command buffer conn (recvs conn.socket_fd) m)) [
          | inl e ↦ rw (receive_all, e) tt
          | inr ((gone, m'), e) ↦
              (let ok' : Routed stof grammar fuel out (h ++ here) m' = rw (e) at first in
                let n : m'.job_number ≡ last_number m.job_number here =
                  next_number h m m' conn c ok ok' (omega (arith, few, size)) in
                let rest =
                  receive_all-Routed buffer recvs conns (h ++ here) m' ok'
                    (rw (n) (omega (arith, few, size, length-append h here))) in
                let rest' =
                  subst
                    (λ (g : List Asked).
                      Every (λ (p : List Connection × Manager). Routed stof grammar fuel out g p.1)
                        (receive_all buffer recvs conns m'))
                    (ap (λ k. (h ++ here) ++ heard buffer recvs conns k) n
                      ∙ append_assoc h here later)
                    rest in
                elim (Option-cases (receive_all buffer recvs conns m')) [
                  | inl f ↦ rw (receive_all, e, f) tt
                  | inr (p, f) ↦ rw (receive_all, e, f) (rw (f) at rest')
                ])
        ]
