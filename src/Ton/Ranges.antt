-- ===== src/Ton/Ranges.antt =====
-- LTs stay in their range, from the pages of the lite server to the result of a scan of the master
-- wallet.
use mytonprovider_agent.Common.{
  Bool, true, false, ℕ, zero, suc, ◌+◌, ◌<◌, none, some, Option, List, [], ◌∷◌, ◌++◌, Text, leb,
  map, arrange, All, All-append, arith, if◌then◌else◌,
}
use mytonprovider_agent.Common.Dict.{Dict}
use mytonprovider_agent.Domain.{Provider}
use mytonprovider_agent.World.{Act, ok, pure, ask, wrapping}
use mytonprovider_agent.World.Actions.Ensures.{
  ok-injective, Ensures, pure-Ensures, raise-Ensures, if-Ensures, wrapping-Ensures, bind-Ensures,
  bind_any-Ensures,
}
use mytonprovider_agent.Lite.{
  Api, Page, found, refused, RawTransaction, Transaction, Incoming, internal, mistyped, other,
  ListError, none_found, deadline, lookup_failed, list_failed,
}
use mytonprovider_agent.Lite.Transactions.{
  cut, parse_incoming, parse_all, on_refusal, on_page, collect, list_account, list_from,
  get_transactions,
}
use mytonprovider_agent.Ton.{Client}
use mytonprovider_agent.Ton.Master.{scan_registrations, list_providers, scan_master_wallet}

module _ (b : ℕ) where
  abbrev pub RawFits : RawTransaction → Type 0
  RawFits t = t.lt < b

  abbrev pub TransactionFits : Transaction → Type 0
  TransactionFits t = t.lt < b

  abbrev pub PageFits : Page → Type 0
  PageFits (found txs) = All RawFits txs
  PageFits (refused e) = Unit {0}

  -- The LTs that the lite servers list are below `b`.
  abbrev pub ApiFits : Api → Type 0
  ApiFits api =
      (addr : Text) (lt : ℕ) (hash : Text) (t : ℕ) → PageFits (api.list_transactions addr lt hash t)

  abbrev Listed : Act (List RawTransaction) → Type 0
  Listed m = Ensures (All RawFits) m

  abbrev PartFits : Option (List RawTransaction) → Type 0
  PartFits none = Unit {0}
  PartFits (some s) = All RawFits s

  longer_part :
      (r : Option (List RawTransaction)) (is_old : Bool) (xs : List RawTransaction)
      → PartFits r
      → All RawFits xs
      → PartFits (elim r [ some s ↦ some s | none ↦ if is_old then some xs else none ])
  longer_part (some s) is_old xs h k = h
  longer_part none true xs h k = k
  longer_part none false xs h k = tt

  cut_fits : (from_lt : ℕ) (xs : List RawTransaction) → All RawFits xs → PartFits (cut from_lt xs)
  unfolding cut
  cut_fits from_lt [] h = tt
  cut_fits from_lt (x ∷ xs) h =
      longer_part (cut from_lt xs) (leb x.lt from_lt) (x ∷ xs) (cut_fits from_lt xs h.1) h

  on_refusal-Listed :
      (e : ListError) (got : List RawTransaction) → All RawFits got → Listed (on_refusal e got)
  unfolding on_refusal
  on_refusal-Listed none_found [] h = raise-Ensures _ _
  on_refusal-Listed none_found (t ∷ ts) h = pure-Ensures _ _ h
  on_refusal-Listed deadline got h = pure-Ensures _ _ h
  on_refusal-Listed lookup_failed got h = pure-Ensures _ _ h
  on_refusal-Listed (list_failed e) got h = raise-Ensures _ _

  next_page-Listed :
      (r : Option (List RawTransaction)) (got : List RawTransaction) (m : Act (List RawTransaction))
      → All RawFits got
      → PartFits r
      → Listed m
      → (let k : Act (List RawTransaction) = elim r [ some s ↦ pure (got ++ s) | none ↦ m ] in
          Listed k)
  next_page-Listed none got m h hs hm = hm
  next_page-Listed (some s) got m h hs hm = pure-Ensures _ _ (All-append RawFits got s h hs)

  on_page-Listed :
      (from_lt : ℕ) (page : Page) (got : List RawTransaction)
      (next : ℕ → Text → List RawTransaction → Act (List RawTransaction))
      → PageFits page
      → All RawFits got
      → ((lt : ℕ) (hash : Text) (more : List RawTransaction)
          → All RawFits more
          → Listed (next lt hash more))
      → Listed (on_page from_lt page got next)
  unfolding on_page
  on_page-Listed from_lt (refused e) got next p h n = on_refusal-Listed e got h
  on_page-Listed from_lt (found []) got next p h n = pure-Ensures _ _ h
  on_page-Listed from_lt (found (r ∷ rs)) got next p h n =
      next_page-Listed (cut from_lt (r ∷ rs)) got _ h (cut_fits from_lt (r ∷ rs) p)
        (n r.prev_lt r.prev_hash (got ++ r ∷ rs) (All-append RawFits got (r ∷ rs) h p))

  module _ (api : Api) (fit : ApiFits api) where
    collect-Listed :
        (addr : Text) (from_lt n lt : ℕ) (hash : Text) (got : List RawTransaction)
        → All RawFits got
        → Listed (collect api addr from_lt n lt hash got)
    unfolding collect
    collect-Listed addr from_lt zero lt hash got h = raise-Ensures _ _
    collect-Listed addr from_lt (suc n) lt hash got h =
        bind-Ensures (All RawFits) PageFits (ask (λ t. ok (api.list_transactions addr lt hash t))) _
          (record { at = λ w a e. rw (← ok-injective e) (fit addr lt hash w.tick) })
          (λ page p.
            on_page-Listed from_lt page got (collect api addr from_lt n) p h
              (λ lt' hash' more. collect-Listed addr from_lt n lt' hash' more))

    list_from-Listed : (addr : Text) (from_lt : ℕ) → Listed (list_from api addr from_lt)
    unfolding list_from list_account
    list_from-Listed addr from_lt =
        bind_any-Ensures (All RawFits)
          (wrapping "get masterchain info err" (ask api.masterchain_info)) _
          λ block.
            bind_any-Ensures (All RawFits)
              (wrapping "get account err" (ask (api.account block addr))) _
              λ account. collect-Listed addr from_lt (account.0 + 2) account.0 account.1 [] tt

    parsed_fits :
        (t : RawTransaction) (i : Incoming) (txs : List Transaction)
        → RawFits t
        → All TransactionFits txs
        → All TransactionFits (elim (parse_incoming t i) [ none ↦ txs | some tx ↦ tx ∷ txs ])
    unfolding parse_incoming
    parsed_fits t (internal m) txs h hs = (h, hs)
    parsed_fits t mistyped txs h hs = hs
    parsed_fits t other txs h hs = hs

    parse_all_fits :
        (ts : List RawTransaction) → All RawFits ts → All TransactionFits (parse_all ts)
    unfolding parse_all
    parse_all_fits [] h = tt
    parse_all_fits (t ∷ ts) (h, hs) =
        parsed_fits t t.incoming (parse_all ts) h (parse_all_fits ts hs)

    get_transactions_fit :
        (addr : Text) (from_lt : ℕ)
        → Ensures (All TransactionFits) (get_transactions api addr from_lt)
    unfolding get_transactions
    get_transactions_fit addr from_lt =
        if-Ensures _ (api.parse_addr addr) _ _
          (λ _.
            bind-Ensures _ (All RawFits) (list_from api addr from_lt) _
              (list_from-Listed addr from_lt) (λ txs h. pure-Ensures _ _ (parse_all_fits txs h)))
          (λ _. raise-Ensures _ _)

  scan_registrations_fits :
      (from_lt : ℕ) (txs : List Transaction) (unique : Dict Provider) (last_lt : ℕ)
      → All TransactionFits txs
      → last_lt < b
      → (scan_registrations from_lt txs unique last_lt).1 < b
  unfolding scan_registrations
  scan_registrations_fits from_lt [] unique last_lt h l = l
  scan_registrations_fits from_lt (tx ∷ txs) unique last_lt (h, hs) l =
      scan_registrations_fits from_lt txs _ _ hs (ground arith)

  list_providers_fits :
      (c : Client) (last_lt : ℕ) (unique : Dict Provider)
      → last_lt < b
      → Ensures (λ r. r.1 < b) (list_providers c last_lt unique)
  unfolding list_providers
  list_providers_fits c last_lt [] l = pure-Ensures (λ r. r.1 < b) _ l
  list_providers_fits c last_lt (e ∷ unique) l =
      bind_any-Ensures (λ r. r.1 < b) (ask (λ t. ok (c.range_order t)))
        (λ order. pure (map (λ x. x.1) (arrange order (e ∷ unique)), last_lt))
        (λ order. pure-Ensures (λ r. r.1 < b) _ l)

  -- A scan's LT is below `b` if the stored one and all that the lite servers list are.
  pub scan_master_wallet_fits :
      (c : Client)
      → ApiFits c.api
      → (addr : Text) (from_lt : ℕ) → from_lt < b
      → Ensures (λ r. r.1 < b) (scan_master_wallet c addr from_lt)
  unfolding scan_master_wallet
  scan_master_wallet_fits c fit addr from_lt l =
      bind-Ensures (λ r. r.1 < b) (All TransactionFits)
        (wrapping "adapters.outbound.ton.MasterScanner.Scan: get transactions"
          (get_transactions c.api addr from_lt))
        (λ txs.
          list_providers c (scan_registrations from_lt txs [] from_lt).1
            (scan_registrations from_lt txs [] from_lt).0)
        (wrapping-Ensures _ _ _ (get_transactions_fit c.api fit addr from_lt))
        (λ txs h. list_providers_fits c _ _ (scan_registrations_fits from_lt txs [] from_lt h l))
