-- ===== src/Evacceptor/Telling.antt =====
-- What `evacceptor_handle_accept` of evpaxos/evacceptor.c tells the clients.
use sciascid_libpaxos_d255f.Base.{
  ◌≤◌, ◌<◌, ◌≡◌, refl, ap, ◌∙◌, inl, inr, Option, some, List, [], ◌∷◌, ==_refl, ◌>>=◌,
}
use sciascid_libpaxos_d255f.Types.{Accept, Accepted, Preempted, Message, accepted, preempted}
use sciascid_libpaxos_d255f.Accepted.{WholeValue, stored}
use sciascid_libpaxos_d255f.Storage.{StorageApi, IsStorage}
use sciascid_libpaxos_d255f.Acceptor.{Acceptor, receive_accept}
use sciascid_libpaxos_d255f.Acceptor.Valid.{IsValid, record_at, ballot_in}
use sciascid_libpaxos_d255f.Acceptor.Steps.{Unchanged, sent_or_not}
use sciascid_libpaxos_d255f.Acceptor.Accepting.{AcceptOutcome, receive_accept_lem}
use sciascid_libpaxos_d255f.Evacceptor.{
  Output, to_peer, to_down_accept, to_clients, answer_accept, handle_accept,
}

module _ (s : StorageApi) (st : IsStorage s) where
  -- What an acceptor says of an accept request, and what it holds then.
  pub data Told (a : Acceptor s) (req : Accept) (outs : List Output) (a' : Acceptor s)
      : Type 0 where
    silent : outs ≡ [] → Told a req outs a'
    tells :
        (r : Accepted)
        → outs ≡ to_clients (accepted r) ∷ []
        → record_at s st a' req.iid ≡ some (stored r)
        → ballot_in (record_at s st a req.iid) ≤ req.ballot
        → Told a req outs a'
    refuses :
        (q : Preempted)
        → outs ≡ to_peer (preempted q) ∷ []
        → req.ballot < q.ballot
        → Unchanged s st a a'
        → Told a req outs a'

  Told-by :
      (a a' : Acceptor s) (req : Accept) (out : Option Message)
      → AcceptOutcome s st a req out a'
      → Told a req (answer_accept out) a'
  unfolding answer_accept
  Told-by a a' req out (AcceptOutcome.ignored _ _ _ n _) = Told.silent (ap answer_accept n)
  Told-by a a' req out (AcceptOutcome.accepts v h new _ fits same _ u sent) =
      elim (sent_or_not s st h _ out sent) [
        | inl e ↦
            Told.tells _ (ap answer_accept e) (u.records req.iid ∙ rw (==_refl req.iid) refl) fits
        | inr n ↦ Told.silent (ap answer_accept n)
      ]
  Told-by a a' req out (AcceptOutcome.preempts new _ gt u sent) =
      elim (sent_or_not s st (s.tx_begin a.store).1 _ out sent) [
        | inl e ↦ Told.refuses _ (ap answer_accept e) gt u
        | inr n ↦ Told.silent (ap answer_accept n)
      ]

  handle_accept-some :
      (a a' : Acceptor s) (req : Accept) (out : Option Message)
      → receive_accept s a req ≡ some (out, a')
      → handle_accept s a req ≡ some (to_down_accept req ∷ answer_accept out, a')
  unfolding handle_accept
  handle_accept-some a a' req out e =
      ap
        (λ (o : Option (Option Message × Acceptor s)). do
          (out, a') ← o
          some (to_down_accept req ∷ answer_accept out, a'))
        e

  -- `evacceptor_handle_accept` of a request with a whole value never faults, keeps the acceptor
  -- valid and passes the request on. It tells the clients that a value is accepted only once the
  -- value is in the storage, where no larger ballot was; else it answers the sender with a larger
  -- ballot and changes no record, or says nothing.
  pub handle_accept_lem :
      (a : Acceptor s) (req : Accept)
      → IsValid s st a
      → WholeValue req.value
      → (outs : List Output) × (a' : Acceptor s) × (handle_accept s a req
          ≡ some (to_down_accept req ∷ outs, a'))
        × IsValid s st a'
        × Told a req outs a'
  handle_accept_lem a req w whole =
      let (out, a', e, valid, outcome) = receive_accept_lem s st a req w whole in
      (
        answer_accept out,
        a',
        handle_accept-some a a' req out e,
        valid,
        Told-by a a' req out outcome,
      )
