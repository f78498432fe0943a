-- ===== src/Ton/Registered.antt =====
-- The providers that a scan of the master wallet returns.
use mytonprovider_agent.Common.{
  ℕ, ◌≤◌, ◌≡◌, refl, Bool, true, false, ◌==◌, Option, none, some, List, [], ◌∷◌, map, leb, length,
  Text, text_eq, is_empty, if◌then◌else◌, All, All-arrange, arrange, arith, Bool-cases, inl, inr,
}
use mytonprovider_agent.Common.Dict.{Dict, insert, has}
use mytonprovider_agent.Domain.{Provider}
use mytonprovider_agent.Strings.{to_lower, to_lower_idem, is_user_friendly, after_first}
use mytonprovider_agent.Strings.Hex.{decode_hex}
use mytonprovider_agent.World.{ok, pure, ask, wrapping}
use mytonprovider_agent.World.Actions.Ensures.{Ensures, pure-Ensures, bind_any-Ensures}
use mytonprovider_agent.Lite.{Transaction}
use mytonprovider_agent.Lite.Transactions.{get_transactions}
use mytonprovider_agent.Ton.{Client}
use mytonprovider_agent.Ton.Master.{
  tsp_registration_prefix, is_raw_key, registered_key, registration, registrant, add_registrant,
  scan_registrations, list_providers, scan_master_wallet,
}
use mytonprovider_agent.Ton.Registrations.{scan_registrations-IsNewest}

-- What a registered provider is: a lower-case key of 32 bytes in hexadecimal, and an address in
-- the user-friendly form.
pub record IsRegistered (p : Provider) : Type 0 where
  pub lower : to_lower p.public_key ≡ p.public_key
  pub long : length p.public_key ≡ 64
  pub decodes : is_raw_key (decode_hex p.public_key) ≡ true
  pub friendly : is_user_friendly p.address ≡ true

judged :
    (empty long raw : Bool) (u k : Text)
    → (if empty then none else if long then (if raw then some u else none) else none) ≡ some k
    → (long ≡ true) × (raw ≡ true) × (u ≡ k)
judged true long raw u k e = absurd (cc e)
judged false false raw u k e = absurd (cc e)
judged false true false u k e = absurd (cc e)
judged false true true u k e = (refl, refl, cc e)

is_64 : (n : ℕ) → (n == 64) ≡ true → n ≡ 64
is_64 n h = ground arith

registered_key-IsRegistered :
    (o : Option Text) (k : Text) (tx : Transaction)
    → registered_key o ≡ some k
    → is_user_friendly tx.from ≡ true
    → IsRegistered (registrant k tx)
unfolding registered_key
registered_key-IsRegistered none k tx e f = absurd (cc e)
registered_key-IsRegistered (some tail) k tx e f =
    let u = to_lower tail in
    let j = judged (is_empty tail) (length u == 64) (is_raw_key (decode_hex u)) u k e in
    record {
      lower = rw (← j.2) (to_lower_idem tail);
      long = rw (← j.2) (is_64 (length u) j.0);
      decodes = rw (← j.2) j.1;
      friendly = f;
    }

friendly_only :
    (b : Bool) (o : Option Text) (k : Text)
    → (if b then o else none) ≡ some k
    → (b ≡ true) × (o ≡ some k)
friendly_only true o k e = (refl, e)
friendly_only false o k e = absurd (cc e)

registration-IsRegistered :
    (k : Text) (tx : Transaction) → registration tx ≡ some k → IsRegistered (registrant k tx)
unfolding registration
registration-IsRegistered k tx e =
    let o = after_first tsp_registration_prefix tx.message in
    let h = friendly_only (is_user_friendly tx.from) (registered_key o) k e in
    registered_key-IsRegistered o k tx h.1 h.0

-- each value of the map is a registered provider
abbrev AllRegistered : Dict Provider → Type 0
AllRegistered = All (λ e. IsRegistered e.1)

All-insert :
    (k : Text) (p : Provider) (m : Dict Provider)
    → IsRegistered p
    → AllRegistered m
    → AllRegistered (insert k p m)
unfolding insert
All-insert k p [] hp h = (hp, tt)
All-insert k p ((j, q) ∷ m) hp h = elim (Bool-cases (text_eq j k)) [
  | inl same ↦ rw same (hp, h.1)
  | inr other ↦ rw other (h.0, All-insert k p m hp h.1)
]

add_registrant-IsRegistered :
    (o : Option Text) (tx : Transaction) (m : Dict Provider)
    → registration tx ≡ o
    → AllRegistered m
    → AllRegistered (add_registrant o tx m)
unfolding add_registrant
add_registrant-IsRegistered none tx m e h = h
add_registrant-IsRegistered (some k) tx m e h = elim (Bool-cases (has k m)) [
  | inl known ↦ rw known h
  | inr new ↦ rw new (All-insert k (registrant k tx) m (registration-IsRegistered k tx e) h)
]

choice-IsRegistered :
    (b : Bool) (m n : Dict Provider)
    → AllRegistered m
    → AllRegistered n
    → AllRegistered (if b then m else n)
choice-IsRegistered true m n hm hn = hm
choice-IsRegistered false m n hm hn = hn

scan_registrations-IsRegistered :
    (from_lt : ℕ) (txs : List Transaction) (m : Dict Provider) (last_lt : ℕ)
    → AllRegistered m
    → AllRegistered (scan_registrations from_lt txs m last_lt).0
unfolding scan_registrations
scan_registrations-IsRegistered from_lt [] m last_lt h = h
scan_registrations-IsRegistered from_lt (tx ∷ txs) m last_lt h =
    scan_registrations-IsRegistered from_lt txs _ _ (
      choice-IsRegistered (leb tx.lt from_lt) m _ h
        (add_registrant-IsRegistered (registration tx) tx m refl h))

-- A scan's outcome: registered providers, and an LT that has not gone back.
abbrev pub IsScan : ℕ → List Provider × ℕ → Type 0
IsScan from_lt r = All IsRegistered r.0 × (from_lt ≤ r.1)

values-IsRegistered : (m : Dict Provider) → AllRegistered m → All IsRegistered (map (λ e. e.1) m)
values-IsRegistered [] h = tt
values-IsRegistered (e ∷ m) h = (h.0, values-IsRegistered m h.1)

list_providers-IsScan :
    (c : Client) (from_lt last_lt : ℕ) (m : Dict Provider)
    → AllRegistered m
    → from_lt ≤ last_lt
    → Ensures (IsScan from_lt) (list_providers c last_lt m)
unfolding list_providers
list_providers-IsScan c from_lt last_lt [] h l = pure-Ensures (IsScan from_lt) ([], last_lt) (tt, l)
list_providers-IsScan c from_lt last_lt (e ∷ m) h l =
    bind_any-Ensures (IsScan from_lt) (ask (λ t. ok (c.range_order t)))
      (λ order. pure (map (λ x. x.1) (arrange order (e ∷ m)), last_lt))
      (λ order. pure-Ensures (IsScan from_lt) _ (
        values-IsRegistered (arrange order (e ∷ m))
            (All-arrange (λ x. IsRegistered x.1) order (e ∷ m) h),
        l,
      ))

-- Every provider that a scan of the master wallet returns has a lower-case key of 32 bytes in
-- hexadecimal and a user-friendly address, and the scan's LT is not below the stored one.
pub scan_master_wallet-IsScan :
    (c : Client) (addr : Text) (from_lt : ℕ)
    → Ensures (IsScan from_lt) (scan_master_wallet c addr from_lt)
unfolding scan_master_wallet
scan_master_wallet-IsScan c addr from_lt =
    bind_any-Ensures (IsScan from_lt)
      (wrapping "adapters.outbound.ton.MasterScanner.Scan: get transactions"
        (get_transactions c.api addr from_lt))
      (λ txs.
        list_providers c (scan_registrations from_lt txs [] from_lt).1
          (scan_registrations from_lt txs [] from_lt).0)
      (λ txs.
        list_providers-IsScan c from_lt _ _
          (scan_registrations-IsRegistered from_lt txs [] from_lt tt)
          (scan_registrations-IsNewest from_lt txs [] from_lt (omega arith)).from_start)
