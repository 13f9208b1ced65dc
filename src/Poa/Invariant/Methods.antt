-- ===== src/Poa/Invariant/Methods.antt =====
-- x/poa/internal/keeper/validator.go: the public methods, and the messages.
use blockchain_relay_layer.Base.{
  ap, sym, ℕ, suc, ◌≤◌, ◌≡◌, subst, Bool, true, false, List, [], ◌∷◌, length, length-append, arith,
}
use blockchain_relay_layer.Base.Action.{Result, ok, err, panic, and_then}
use blockchain_relay_layer.Poa.Types.{Address, Error, new_validator}
use blockchain_relay_layer.Poa.Keeper.{
  State, get_validators, add_validator, remove_validator, replace_validator, add_validator_with,
  remove_validator_with,
}
use blockchain_relay_layer.Poa.Messages.{
  Msg, msg_add_validator, msg_remove_validator, msg_replace_validator, handle,
}
use blockchain_relay_layer.Poa.Invariant.Lookup.{
  AllDifferent, Drops, drop_address-Drops, snoc-AllDifferent,
}
use blockchain_relay_layer.Poa.Invariant.Steps.{
  Inv, Adds, Removes, add_validator_with-Adds, remove_validator_with-Removes,
}

pub add-Inv :
    (a : Address) (eth : List ℕ) (limits : Bool) (s s' : State)
    → Inv s
    → (limits ≡ false → suc (length (get_validators s)) ≤ s.params.max_validators)
    → Adds a eth limits s (ok tt, s')
    → Inv s'
add-Inv a eth limits s s' v room h = record {
  counted = h.5;
  different =
      subst AllDifferent (sym h.0)
        (snoc-AllDifferent (new_validator a eth) (get_validators s) v.different h.1);
  indexed = h.6;
  few = ground (
    arith,
    room,
    h.3,
    h.4,
    ap length h.0,
    length-append (get_validators s) (new_validator a eth ∷ []),
  );
  small = ground (arith, h.4, v.small);
}

pub remove-Inv :
    (a : Address) (limits : Bool) (s s' : State)
    → Inv s
    → Removes a limits s (ok tt, s')
    → Inv s' × (suc (length (get_validators s')) ≡ length (get_validators s))
remove-Inv a limits s s' v h =
    let dropped =
      subst (Drops a (get_validators s)) h.0
        (drop_address-Drops a (get_validators s) v.different) in
    (
      record {
        counted = h.4;
        different = dropped.1;
        indexed = h.5;
        few = ground (arith, h.3, dropped.0, v.few);
        small = ground (arith, h.3, v.small);
      },
      dropped.0,
    )

-- A method keeps the invariant however it ends.
abbrev pub Keeps : Result Error (Unit {0}) × State → Type 0
Keeps (ok _, s) = Inv s
Keeps (err _, s) = Inv s
Keeps (panic, s) = ⊥

add_validator-Keeps :
    (a : Address) (eth : List ℕ) (s : State) → Inv s → Keeps (add_validator a eth s)
unfolding add_validator
add_validator-Keeps a eth s v =
    go (add_validator_with a eth true s) (add_validator_with-Adds a eth true s v)
  where
    go : (r : Result Error (Unit {0}) × State) → Adds a eth true s r → Keeps r
    go (ok u, s') h = add-Inv a eth true s s' v (λ e. cc) h
    go (err e, s') h = rw h v
    go (panic, s') h = h

remove_validator-Keeps : (a : Address) (s : State) → Inv s → Keeps (remove_validator a s)
unfolding remove_validator
remove_validator-Keeps a s v =
    go (remove_validator_with a true s) (remove_validator_with-Removes a true s v)
  where
    go : (r : Result Error (Unit {0}) × State) → Removes a true s r → Keeps r
    go (ok u, s') h = (remove-Inv a true s s' v h).0
    go (err e, s') h = rw h v
    go (panic, s') h = h

replace_tail-Keeps :
    (old new : Address) (eth : List ℕ) (s s' : State)
    → Inv s
    → Removes old false s (ok tt, s')
    → Keeps (add_validator_with new eth false s')
replace_tail-Keeps old new eth s s' v h =
    go (add_validator_with new eth false s') (add_validator_with-Adds new eth false s' removed.0)
  where
    removed : Inv s' × (suc (length (get_validators s')) ≡ length (get_validators s))
    removed = remove-Inv old false s s' v h

    go : (r : Result Error (Unit {0}) × State) → Adds new eth false s' r → Keeps r
    go (ok u, s'') k =
        add-Inv new eth false s' s'' removed.0 (λ e. ground (arith, removed.1, v.few, h.3)) k
    go (err e, s'') k = rw k removed.0
    go (panic, s'') k = k

replace_validator-Keeps :
    (old new : Address) (eth : List ℕ) (s : State) → Inv s → Keeps (replace_validator old new eth s)
unfolding replace_validator
replace_validator-Keeps old new eth s v =
    go (remove_validator_with old false s) (remove_validator_with-Removes old false s v)
  where
    go :
        (r : Result Error (Unit {0}) × State)
        → Removes old false s r
        → Keeps (and_then r (λ _. add_validator_with new eth false))
    go (ok u, s') h = replace_tail-Keeps old new eth s s' v h
    go (err e, s') h = rw h v
    go (panic, s') h = h

-- In a state where the list, the counter and the per-address records agree, no address is listed
-- twice and there are at most `max_validators` (at most 11) validators, every confirmed message
-- ends without a panic in such a state again, whether it succeeds or fails half way.
pub handle-Keeps : (m : Msg) (s : State) → Inv s → Keeps (handle m s)
unfolding handle
handle-Keeps (msg_add_validator a eth sender) s v = add_validator-Keeps a eth s v
handle-Keeps (msg_remove_validator a sender) s v = remove_validator-Keeps a s v
handle-Keeps (msg_replace_validator old new eth sender) s v =
    replace_validator-Keeps old new eth s v
