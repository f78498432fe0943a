-- ===== src/Lite/Reads.antt =====
-- The calls of the liteclient write nothing.
use mytonprovider_agent.Common.{
  ℕ, zero, suc, ◌+◌, ◌≡◌, refl, none, some, List, [], ◌∷◌, ◌++◌, Text, arrange,
}
use mytonprovider_agent.World.{World, Act, Result, ok, err, pure, ask, wrapping}
use mytonprovider_agent.World.Actions.Keeps.{
  IsReadOnly, pure-IsReadOnly, raise-IsReadOnly, ask-IsReadOnly, wrapping-IsReadOnly, if-IsReadOnly,
  bind-IsReadOnly, attempt_or-IsReadOnly,
}
use mytonprovider_agent.Workers.Worlds.{fan_out_keeps}
use mytonprovider_agent.Lite.{
  RawTransaction, ListError, none_found, deadline, lookup_failed, list_failed, Page, found, refused,
  ProviderInfo, LiteContract, Api,
}
use mytonprovider_agent.Lite.Transactions.{
  cut, on_refusal, on_page, collect, list_account, list_from, parse_all, get_transactions,
}
use mytonprovider_agent.Lite.Contracts.{contracts_from, get_storage_contracts_info}
use mytonprovider_agent.Lite.States.{
  get_providers_retries, try_info, inspect_one, inspections, inspect_all, get_providers_info,
}

on_refusal-IsReadOnly : (e : ListError) (got : List RawTransaction) → IsReadOnly (on_refusal e got)
unfolding on_refusal
on_refusal-IsReadOnly none_found [] = raise-IsReadOnly _
on_refusal-IsReadOnly none_found (t ∷ ts) = pure-IsReadOnly _
on_refusal-IsReadOnly deadline got = pure-IsReadOnly _
on_refusal-IsReadOnly lookup_failed got = pure-IsReadOnly _
on_refusal-IsReadOnly (list_failed e) got = raise-IsReadOnly _

module _ (from_lt : ℕ) (got : List RawTransaction)
    (next : ℕ → Text → List RawTransaction → Act (List RawTransaction))
    (reads : (lt : ℕ) (hash : Text) (more : List RawTransaction)
      → IsReadOnly (next lt hash more)) where
  on_page-IsReadOnly : (page : Page) → IsReadOnly (on_page from_lt page got next)
  unfolding on_page
  on_page-IsReadOnly (refused e) = on_refusal-IsReadOnly e got
  on_page-IsReadOnly (found []) = pure-IsReadOnly _
  on_page-IsReadOnly (found (r ∷ rs)) =
      elim (cut from_lt (r ∷ rs))
        as (λ o. IsReadOnly (elim o [
          | some s ↦ pure (got ++ s)
          | none ↦ next r.prev_lt r.prev_hash (got ++ r ∷ rs)
        ])) [ some s ↦ pure-IsReadOnly _ | none ↦ reads _ _ _ ]

collect-IsReadOnly :
    (api : Api) (addr : Text) (from_lt n lt : ℕ) (hash : Text) (got : List RawTransaction)
    → IsReadOnly (collect api addr from_lt n lt hash got)
unfolding collect
collect-IsReadOnly api addr from_lt zero lt hash got = raise-IsReadOnly _
collect-IsReadOnly api addr from_lt (suc n) lt hash got =
    bind-IsReadOnly (ask (λ t. ok (api.list_transactions addr lt hash t)))
      (λ page. on_page from_lt page got (collect api addr from_lt n)) (ask-IsReadOnly _)
      (on_page-IsReadOnly from_lt got (collect api addr from_lt n)
        (collect-IsReadOnly api addr from_lt n))

list_from-IsReadOnly :
    (api : Api) (addr : Text) (from_lt : ℕ) → IsReadOnly (list_from api addr from_lt)
unfolding list_from list_account
list_from-IsReadOnly api addr from_lt =
    bind-IsReadOnly (wrapping _ (ask api.masterchain_info)) _
      (wrapping-IsReadOnly _ (ask api.masterchain_info) (ask-IsReadOnly _))
      (λ block.
        bind-IsReadOnly (wrapping _ (ask (api.account block addr))) (list_account api addr from_lt)
          (wrapping-IsReadOnly _ (ask (api.account block addr)) (ask-IsReadOnly _))
          (λ a. collect-IsReadOnly api addr from_lt _ _ _ _))

pub get_transactions-IsReadOnly :
    (api : Api) (addr : Text) (from_lt : ℕ) → IsReadOnly (get_transactions api addr from_lt)
unfolding get_transactions
get_transactions-IsReadOnly api addr from_lt =
    if-IsReadOnly _ _ _
      (bind-IsReadOnly (list_from api addr from_lt) (λ txs. pure (parse_all txs))
        (list_from-IsReadOnly api addr from_lt) (λ txs. pure-IsReadOnly _))
      (raise-IsReadOnly _)

contracts_from-IsReadOnly :
    (api : Api) (block : ℕ) (addrs : List Text) (out : List LiteContract)
    → IsReadOnly (contracts_from api block addrs out)
unfolding contracts_from
contracts_from-IsReadOnly api block [] out = pure-IsReadOnly _
contracts_from-IsReadOnly api block (a ∷ addrs) out =
    if-IsReadOnly _ _ _
      (attempt_or-IsReadOnly (ask (api.storage_info block a)) (contracts_from api block addrs out) _
        (ask-IsReadOnly _) (contracts_from-IsReadOnly api block addrs out)
        (λ info. contracts_from-IsReadOnly api block addrs _))
      (contracts_from-IsReadOnly api block addrs out)

pub get_storage_contracts_info-IsReadOnly :
    (api : Api) (addrs : List Text) → IsReadOnly (get_storage_contracts_info api addrs)
unfolding get_storage_contracts_info
get_storage_contracts_info-IsReadOnly api addrs =
    bind-IsReadOnly (wrapping _ (ask api.masterchain_info))
      (λ block. contracts_from api block addrs [])
      (wrapping-IsReadOnly _ (ask api.masterchain_info) (ask-IsReadOnly _))
      (λ block. contracts_from-IsReadOnly api block addrs [])

-- the database and the log are those of `w`
abbrev pub Unwritten : World → World → Type 0
Unwritten w v = (v.db ≡ w.db) × (v.log ≡ w.log)

try_info-Unwritten :
    (api : Api) (block : ℕ) (a : Text) (n : ℕ) (w v : World) (last : Result (List ProviderInfo × ℕ))
    → Unwritten w v
    → Unwritten w (try_info api block a n v last).1
unfolding try_info
try_info-Unwritten api block a zero w v last h = h
try_info-Unwritten api block a (suc n) w v last h =
    elim (api.providers_info block a v.tick)
      as (λ r.
        Unwritten w
          (elim r as (λ x. Result (List ProviderInfo × ℕ) × World) [
            | ok info ↦ (ok info, record v { tick = v.tick + 1 })
            | err e ↦ try_info api block a n (record v { tick = v.tick + 1 + 1 }) (err e)
          ]).1) [
            | ok info ↦ h
            | err e ↦
                try_info-Unwritten api block a n w (record v { tick = v.tick + 1 + 1 }) (err e) h
          ]

inspect_one-Unwritten :
    (api : Api) (block : ℕ) (w : World) (a : Text) (v : World)
    → Unwritten w v
    → Unwritten w (inspect_one api block a v).1
unfolding inspect_one
inspect_one-Unwritten api block w a v h =
    try_info-Unwritten api block a get_providers_retries w v (ok ([], 0)) h

inspect_all-Unwritten :
    (api : Api) (block : ℕ) (addrs : List Text) (w : World)
    → Unwritten w (inspect_all api block addrs w).1
unfolding inspect_all inspections
inspect_all-Unwritten api block addrs w =
    fan_out_keeps (inspections api block) (Unwritten w) (λ v t h. h)
      (inspect_one-Unwritten api block w) (arrange (api.turn_order w.tick) addrs) w (refl, refl)

pub get_providers_info-IsReadOnly :
    (api : Api) (addrs : List Text) → IsReadOnly (get_providers_info api addrs)
unfolding get_providers_info
get_providers_info-IsReadOnly api addrs =
    bind-IsReadOnly (wrapping _ (ask api.masterchain_info)) (λ block. inspect_all api block addrs)
      (wrapping-IsReadOnly _ (ask api.masterchain_info) (ask-IsReadOnly _))
      (λ block. record {
        same_db = λ w. (inspect_all-Unwritten api block addrs w).0;
        same_log = λ w. (inspect_all-Unwritten api block addrs w).1;
      })
