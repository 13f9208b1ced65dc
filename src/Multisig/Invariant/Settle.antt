-- ===== src/Multisig/Invariant/Settle.antt =====
-- x/multisig/abci.go: one step of each loop of `EndBlocker`.
use blockchain_relay_layer.Base.{
  ==→eq, ◌⊎◌, Bool-cases, ◌%◌, length, leb, ℕ, ◌≡◌, ◌≢◌, refl, sym, subst, Bool, true, false,
  Option, some, List, [], ◌∷◌, ◌==◌, if◌then◌else◌, All, elem, arith, Option-cases, inl, inr,
}
use blockchain_relay_layer.Base.Map.{Map, lookup, insert, lookup-insert}
use blockchain_relay_layer.Base.Action.{Result, ok, err, panic}
use blockchain_relay_layer.Multisig.Types.{Address, Interface, Call, Name}
use blockchain_relay_layer.Multisig.Queue.{QueueItem, remove_call_from_queue}
use blockchain_relay_layer.Multisig.Keeper.{State, next_call_id, get_call, has_call}
use blockchain_relay_layer.Multisig.Votes.{get_confirmations_count, get_votes}
use blockchain_relay_layer.Multisig.EndBlock.{
  World, Outcome, settle, finish, run_handler, execute_call, process_active,
}
use blockchain_relay_layer.Multisig.Invariant.Defs.{Inv, IsItem, live, ids, Laws}
use blockchain_relay_layer.Multisig.Invariant.QueueLaws.{
  elem-remove_call_from_queue, remove_call_from_queue-Distinct,
}
use blockchain_relay_layer.Multisig.Invariant.Submit.{names_keep}
use blockchain_relay_layer.Multisig.Invariant.Steps.{recorded}

module _ {App Msg : Type 0} (app : Interface App Msg) where
  settled_items :
      (c old : Call Msg) (id : ℕ) (calls : Map (Call Msg)) (qs : List QueueItem)
      → lookup id calls ≡ some old
      → c.height ≡ old.height
      → All (IsItem app calls) qs
      → All (IsItem app (insert id c calls)) (remove_call_from_queue id c.height qs)
  unfolding remove_call_from_queue
  settled_items c old id calls [] e h a = tt
  settled_items c old id calls (q ∷ qs) e h a =
      ground (arith, settled_items c old id calls qs e h a.1, lookup-insert id q.call_id c calls)

  settle-Inv :
      (c old : Call Msg) (id : ℕ) (s : State Msg)
      → Inv app s
      → lookup id s.calls ≡ some old
      → c.id ≡ id
      → c.height ≡ old.height
      → Inv app (settle c id s)
  unfolding settle next_call_id
  settle-Inv c old id s v e i h = record {
    items =
        subst
          (λ k. All (IsItem app (insert k c s.calls)) (remove_call_from_queue id c.height s.queue))
          (sym i) (settled_items c old id s.calls s.queue e h v.items);
    once = remove_call_from_queue-Distinct id c.height s.queue v.once;
    keyed = λ k. ground (arith, lookup-insert c.id k c s.calls, v.keyed k);
    fresh = λ k l. ground (arith, lookup-insert c.id k c s.calls, v.fresh k l);
    unvoted = v.unvoted;
    good = v.good;
    named = λ n. names_keep (lookup n s.unique_ids) c.id c s.calls (v.named n);
  }

  abbrev pub LiveId : State Msg → ℕ → Type 0
  LiveId s id = live app (lookup id s.calls) ≡ true

  -- Whether the recorded confirmations of a call reach the required number.
  abbrev pub enough_votes : ℕ → World App Msg → Bool
  enough_votes id w = leb (app.get_enough_confirmations w.rest) (length (recorded w.ms id) % 65536)

  pub process_active_lem :
      (c : Call Msg) (id : ℕ) (w : World App Msg)
      → lookup id w.ms.calls ≡ some c
      → process_active app id w ≡ (if enough_votes id w then execute_call app id w else (ok tt, w))
  unfolding process_active get_confirmations_count get_votes has_call
  process_active_lem c id w l = elim (Option-cases (lookup id w.ms.votes)) [
    | inl e ↦ ground arith
    | inr (votes, e) ↦ ground arith
  ]

  module _ (IsGood : App → Type 0) (laws : Laws app IsGood) where
    abbrev pub Sound : World App Msg → Type 0
    Sound w = Inv app w.ms × IsGood w.rest

    -- How a waiting call is decided: executed or failed once enough confirmations were recorded in
    -- some good state of the application, or rejected.
    abbrev pub Change : List Address → Call Msg → Call Msg → Type 0
    Change votes c c' =
        (c.approved ≡ false)
        × (c.rejected ≡ false)
        × (((a : App) × IsGood a
              × (leb (app.get_enough_confirmations a) (length votes % 65536) ≡ true)
              × ((c' ≡ finish c (ok tt)) ⊎ ((e : Name) × (c' ≡ finish c (err e)))))
            ⊎ (c' ≡ record c { rejected = true }))

    -- A stored call stays as it is, or is decided.
    abbrev pub Moves : List Address → Option (Call Msg) → Option (Call Msg) → Type 0
    Moves votes o o' =
        (o' ≡ o)
        ⊎ ((c : Call Msg) × (c' : Call Msg) × (o ≡ some c) × (o' ≡ some c') × Change votes c c')

    abbrev pub AllMove : State Msg → State Msg → Type 0
    AllMove s s' = (k : ℕ) → Moves (recorded s k) (lookup k s.calls) (lookup k s'.calls)

    -- Nothing enters the queue.
    abbrev pub Shrinks : State Msg → State Msg → Type 0
    Shrinks s s' = (k : ℕ) → elem k (ids s.queue) ≡ false → elem k (ids s'.queue) ≡ false

    -- A step over the call `id` ends well and leaves the other calls alone.
    abbrev pub Steps : ℕ → World App Msg → Outcome App Msg → Type 0
    Steps id w r =
        (r.0 ≡ ok tt)
        × Sound r.1
        × ((k : ℕ) → (id == k) ≡ false → lookup k r.1.ms.calls ≡ lookup k w.ms.calls)
        × (r.1.ms.votes ≡ w.ms.votes)
        × AllMove w.ms r.1.ms
        × Shrinks w.ms r.1.ms

    settle-others :
        (c : Call Msg) (id k : ℕ) (s : State Msg)
        → c.id ≡ id
        → (id == k) ≡ false
        → lookup k (settle c id s).calls ≡ lookup k s.calls
    unfolding settle
    settle-others c id k s e h = ground (arith, lookup-insert c.id k c s.calls)

    pub settle_self :
        (c : Call Msg) (id : ℕ) (s : State Msg)
        → c.id ≡ id
        → lookup id (settle c id s).calls ≡ some c
    unfolding settle
    settle_self c id s e = ground (arith, lookup-insert c.id id c s.calls)

    pub settle-Steps :
        (c old : Call Msg) (id : ℕ) (w : World App Msg) (a : App)
        → Inv app w.ms
        → lookup id w.ms.calls ≡ some old
        → c.id ≡ old.id
        → c.height ≡ old.height
        → IsGood a
        → Change (recorded w.ms id) old c
        → Steps id w (ok tt, record { ms = settle c id w.ms; rest = a })
    unfolding settle
    settle-Steps c old id w a v l i h g ch = (
      refl,
      (settle-Inv c old id w.ms v l c_id h, g),
      λ k ne. settle-others c id k w.ms c_id ne,
      refl,
      λ k. elim (Bool-cases (id == k)) [
        | inl here ↦
            subst
              (λ x.
                Moves (recorded w.ms x) (lookup x w.ms.calls) (lookup x (settle c id w.ms).calls))
              (==→eq id k here) (inr (old, c, l, settle_self c id w.ms c_id, ch))
        | inr other ↦ inl (settle-others c id k w.ms c_id other)
      ],
      λ k out. elem-remove_call_from_queue id c.height k w.ms.queue out,
    )
      where
        c_id : c.id ≡ id
        c_id = ground (arith, v.keyed id, i)

    run_handler-Steps :
        (h : Msg → App → Result Name (Unit {0}) × App) (c : Call Msg) (id : ℕ) (w : World App Msg)
        → app.get_route (app.route c.msg) ≡ some h
        → Sound w
        → lookup id w.ms.calls ≡ some c
        → live app (some c) ≡ true
        → enough_votes id w ≡ true
        → Steps id w (run_handler h c id w)
    unfolding run_handler
    run_handler-Steps h c id w e v l lv en =
        go (h c.msg w.rest).0 (laws.no_panic (app.route c.msg) h c.msg w.rest e v.1)
      where
        go :
            (r : Result Name (Unit {0}))
            → r ≢ panic
            → Steps id w (elim r [
              | ok _ ↦ (
                ok tt,
                record { ms = settle (finish c (ok tt)) id w.ms; rest = (h c.msg w.rest).1 },
              )
              | err x ↦ (ok tt, record w { ms = settle (finish c (err x)) id w.ms })
              | panic ↦ (panic, w)
            ])
        go (ok u) ne =
            settle-Steps (finish c (ok tt)) c id w (h c.msg w.rest).1 v.0 l refl refl
              (laws.keeps (app.route c.msg) h c.msg w.rest e v.1)
              (ground arith, ground arith, inl (w.rest, v.1, en, inl refl))
        go (err x) ne =
            settle-Steps (finish c (err x)) c id w w.rest v.0 l refl refl v.1
              (ground arith, ground arith, inl (w.rest, v.1, en, inr (x, refl)))
        go panic ne = absurd (ne refl)

    stay-Steps : (id : ℕ) (w : World App Msg) → Sound w → Steps id w (ok tt, w)
    stay-Steps id w v = (refl, v, λ k ne. refl, refl, λ k. inl refl, λ k out. out)

    execute_call-Steps :
        (c : Call Msg) (id : ℕ) (w : World App Msg)
        → Sound w
        → lookup id w.ms.calls ≡ some c
        → live app (some c) ≡ true
        → enough_votes id w ≡ true
        → Steps id w (execute_call app id w)
    unfolding execute_call get_call
    execute_call-Steps c id w v l e en = elim (Option-cases (app.get_route (app.route c.msg))) [
      | inl none_there ↦ absurd (ground arith)
      | inr (h, found) ↦
          rw (l, execute_call, get_call)
            (rw (found, execute_call) (run_handler-Steps h c id w found v l e en))
    ]

    pub process_active-Steps :
        (c : Call Msg) (id : ℕ) (w : World App Msg)
        → Sound w
        → lookup id w.ms.calls ≡ some c
        → live app (some c) ≡ true
        → Steps id w (process_active app id w)
    process_active-Steps c id w v l e =
        subst (Steps id w) (sym (process_active_lem c id w l)) (go (enough_votes id w) refl)
      where
        go :
            (b : Bool)
            → enough_votes id w ≡ b
            → Steps id w (if b then execute_call app id w else (ok tt, w))
        go true en = execute_call-Steps c id w v l e en
        go false en = stay-Steps id w v
