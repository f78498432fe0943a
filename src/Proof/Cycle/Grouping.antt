-- ===== src/Proof/Cycle/Grouping.antt =====
-- The relations that the batches hold together.
use mathlib.Core.List.{Perm, Permᴰ, perm_middle, perm_append_comm, append-nil, append_assoc}
use mathlib.Core.List.Perm
use mathlib.Core.Logic.{∥∥₁_elim, ∥∥₁_prop}
use mytonprovider_agent.Common.{
  ap, Bool, true, false, none, some, List, [], ◌∷◌, ◌++◌, Text, text_eq, if◌then◌else◌,
}
use mytonprovider_agent.Common.Dict.{Dict, lookup, insert, get_or}
use mytonprovider_agent.Domain.{ContractProviderRelation}
use mytonprovider_agent.Proof.Cycle.{Batch, by_provider}

-- the relations of all batches
unfoldable pub flatten : List Batch → List ContractProviderRelation
flatten [] = []
flatten (b ∷ bs) = b.1 ++ flatten bs

-- an entry whose key is the one to insert, or another
insert_at :
    (same : Bool) (k j : Text) (r : ContractProviderRelation) (w : List ContractProviderRelation)
    (m : Dict (List ContractProviderRelation))
    → Perm (flatten (insert k (get_or k [] m ++ r ∷ []) m)) (r ∷ flatten m)
    → (let v : List ContractProviderRelation = elim (if same then some w else lookup k m) [
      | none ↦ []
      | some v ↦ v
    ] in
        Perm
          (flatten (if same then (k, v ++ r ∷ []) ∷ m else (j, w) ∷ insert k (v ++ r ∷ []) m))
          (r ∷ (w ++ flatten m)))
unfolding flatten
insert_at true k j r w m ih = rw (append_assoc w (r ∷ []) (flatten m)) (perm_middle w (flatten m))
insert_at false k j r w m ih = Perm.trans (Perm.append_left w ih) (perm_middle w (flatten m))

flatten-insert :
    (k : Text) (r : ContractProviderRelation) (m : Dict (List ContractProviderRelation))
    → Perm (flatten (insert k (get_or k [] m ++ r ∷ []) m)) (r ∷ flatten m)
unfolding flatten insert lookup
flatten-insert k r [] = Perm.refl _
flatten-insert k r ((j, w) ∷ m) = insert_at (text_eq j k) k j r w m (flatten-insert k r m)

-- Grouping by provider loses no relation and makes none up.
flatten-by_provider :
    (rs : List ContractProviderRelation) (m : Dict (List ContractProviderRelation))
    → Perm (flatten (by_provider rs m)) (rs ++ flatten m)
unfolding by_provider
flatten-by_provider [] m = Perm.refl _
flatten-by_provider (r ∷ rs) m = Perm.trans (flatten-by_provider rs _) (
    Perm.trans (Perm.append_left rs (flatten-insert r.provider_pubkey r m))
      (perm_middle rs (flatten m)))

pub flatten_grouped : (rs : List ContractProviderRelation) → Perm (flatten (by_provider rs [])) rs
unfolding flatten
flatten_grouped rs = rw append-nil at (flatten-by_provider rs [])

exchange : (x y l : List ContractProviderRelation) → Perm (x ++ (y ++ l)) (y ++ (x ++ l))
exchange x y l =
    rw (← append_assoc x y l, ← append_assoc y x l) (Perm.append_right l (perm_append_comm x y))

flatten-Permᴰ : {bs cs : List Batch} → Permᴰ bs cs → Perm (flatten bs) (flatten cs)
unfolding flatten
flatten-Permᴰ Permᴰ.nil = Perm.refl _
flatten-Permᴰ (Permᴰ.cons {a} {b} {l₁} {l₂} e p) =
    rw (ap (λ (x : Batch). x.1) e) (Perm.append_left b.1 (flatten-Permᴰ p))
flatten-Permᴰ (Permᴰ.swap {a} {b} {a'} {b'} {l} e f) =
    rw (ap (λ (x : Batch). x.1) e, ap (λ (x : Batch). x.1) f) (exchange b'.1 a'.1 (flatten l))
flatten-Permᴰ (Permᴰ.trans p q) = Perm.trans (flatten-Permᴰ p) (flatten-Permᴰ q)

pub flatten-perm : {bs cs : List Batch} → Perm bs cs → Perm (flatten bs) (flatten cs)
flatten-perm p = ∥∥₁_elim p ∥∥₁_prop flatten-Permᴰ
