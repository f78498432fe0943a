-- ===== src/App/Streams.antt =====
-- The keys of the agent's streams.
use Prim.Native.Char.{Char, code}
use Prim.Native.String.append
use text.Mathlib.TextEquality.{eq_iff}
use Prim.Native.String.{◌++◌ as ◌<>◌}
use text.Mathlib.TextLemmas.{append_cancel_left}
use mytonprovider_agent.Common.{
  false, ℕ, arith, ◌≡◌, refl, ap, String, List, [], ◌∷◌, map, ◌++◌, ◌≢◌, All, All-append,
}
use text.Mathlib.Text.{◌==◌ as str_eq}
use mytonprovider_agent.Jobs.{
  cycle_scan_master, cycle_scan_wallets, cycle_resolve_endpoints, cycle_probe_rates,
  cycle_inspect_contracts, cycle_check_proofs, cycle_lookup_ipinfo,
}
use mytonprovider_agent.Config.{Config}
use mytonprovider_agent.App.{
  stream_key, Outside, bindings, new_discovery, new_poll, new_proof, new_update,
}

-- no two of the strings are equal
abbrev pub AreApart : List String → Type 0
AreApart [] = Unit {0}
AreApart (x ∷ xs) = All (λ y. x ≢ y) xs × AreApart xs

-- One prefix and one kind give two cycles the same key only if they have the same name.
stream_key-injective :
    (cfg : Config) (kind a b : String) → stream_key cfg kind a ≡ stream_key cfg kind b → a ≡ b
unfolding stream_key
stream_key-injective cfg kind a b e = append_cancel_left ":" a b (
    append_cancel_left kind (":" <> a) (":" <> b) (
      append_cancel_left ":" (kind <> ":" <> a) (kind <> ":" <> b) (
        append_cancel_left cfg.redis.stream_prefix (":" <> kind <> ":" <> a)
          (":" <> kind <> ":" <> b) e)))

first_code : String → ℕ
first_code String.[] = 0
first_code (String.◌∷◌ c s) = code c

first_code-append : (c : Char) (s x : String) → first_code (String.◌∷◌ c s <> x) ≡ code c
unfolding first_code
first_code-append c s x = ap first_code (append.cons c s x)

kinds_apart : (cfg : Config) (a b : String) → stream_key cfg "cycle" a ≢ stream_key cfg "result" b
unfolding stream_key first_code
kinds_apart cfg a b e =
    let e' : "cycle" <> ":" <> a ≡ "result" <> ":" <> b = append_cancel_left ":" _ _ (
      append_cancel_left cfg.redis.stream_prefix (":" <> "cycle" <> ":" <> a)
        (":" <> "result" <> ":" <> b) e) in
    absurd (
      omega (
        arith,
        first_code-append "c" "ycle" (":" <> a),
        first_code-append "r" "esult" (":" <> b),
        ap first_code e',
      ))

apart_from_keys :
    (cfg : Config) (kind x : String) (ys : List String)
    → All (λ y. x ≢ y) ys
    → All (λ k. stream_key cfg kind x ≢ k) (map (stream_key cfg kind) ys)
apart_from_keys cfg kind x [] h = tt
apart_from_keys cfg kind x (y ∷ ys) h =
    (λ e. h.0 (stream_key-injective cfg kind x y e), apart_from_keys cfg kind x ys h.1)

keys-AreApart :
    (cfg : Config) (kind : String) (xs : List String)
    → AreApart xs
    → AreApart (map (stream_key cfg kind) xs)
keys-AreApart cfg kind [] h = tt
keys-AreApart cfg kind (x ∷ xs) h =
    (apart_from_keys cfg kind x xs h.0, keys-AreApart cfg kind xs h.1)

apart_from_results :
    (cfg : Config) (a : String) (bs : List String)
    → All (λ k. stream_key cfg "cycle" a ≢ k) (map (stream_key cfg "result") bs)
apart_from_results cfg a [] = tt
apart_from_results cfg a (b ∷ bs) = (kinds_apart cfg a b, apart_from_results cfg a bs)

both_kinds-AreApart :
    (cfg : Config) (xs ys : List String)
    → AreApart (map (stream_key cfg "cycle") xs)
    → AreApart (map (stream_key cfg "result") ys)
    → AreApart (map (stream_key cfg "cycle") xs ++ map (stream_key cfg "result") ys)
both_kinds-AreApart cfg [] ys hx hy = hy
both_kinds-AreApart cfg (x ∷ xs) ys hx hy = (
  All-append (λ k. stream_key cfg "cycle" x ≢ k) (map (stream_key cfg "cycle") xs) _ hx.0
      (apart_from_results cfg x ys),
  both_kinds-AreApart cfg xs ys hx.1 hy,
)

abbrev cycle_names : List String
cycle_names =
    cycle_scan_master ∷ cycle_scan_wallets ∷ cycle_resolve_endpoints ∷ cycle_probe_rates
    ∷ cycle_inspect_contracts ∷ cycle_check_proofs ∷ cycle_lookup_ipinfo ∷ []

differ : {a b : String} → str_eq a b ≡ false → a ≢ b
differ {a} {b} d e = absurd (cc (d, (eq_iff a b).1 e))

cycle_names-AreApart : AreApart cycle_names
cycle_names-AreApart = (
  (differ refl, (differ refl, (differ refl, (differ refl, (differ refl, (differ refl, tt)))))),
  (
    (differ refl, (differ refl, (differ refl, (differ refl, (differ refl, tt))))),
    (
      (differ refl, (differ refl, (differ refl, (differ refl, tt)))),
      (
        (differ refl, (differ refl, (differ refl, tt))),
        ((differ refl, (differ refl, tt)), ((differ refl, tt), (tt, tt))),
      ),
    ),
  ),
)

-- the streams that the consumers of the agent read
pub trigger_streams : Config → Outside → List String
unfolding bindings
trigger_streams cfg out = map (λ b. stream_key cfg "cycle" b.cycle_type) (bindings cfg out)

-- the streams that its use cases publish to
pub result_streams : Config → Outside → List String
unfolding new_discovery new_poll new_proof new_update
result_streams cfg out =
    (new_discovery cfg out).cfg.scan_master_stream
    ∷ (new_discovery cfg out).cfg.scan_wallets_stream
    ∷ (new_discovery cfg out).cfg.resolve_endpoints_stream
    ∷ (new_poll cfg out).cfg.probe_rates_stream
    ∷ (new_poll cfg out).cfg.inspect_contracts_stream
    ∷ (new_proof cfg out).cfg.check_proofs_stream
    ∷ (new_update cfg out).cfg.lookup_ip_info_stream
    ∷ []

-- The fourteen streams of the agent are pairwise different, for every prefix: no two cycles share
-- a stream, and no consumer reads what a use case publishes.
pub streams-AreApart :
    (cfg : Config) (out : Outside) → AreApart (trigger_streams cfg out ++ result_streams cfg out)
unfolding trigger_streams result_streams
streams-AreApart cfg out =
    both_kinds-AreApart cfg cycle_names cycle_names
      (keys-AreApart cfg "cycle" cycle_names cycle_names-AreApart)
      (keys-AreApart cfg "result" cycle_names cycle_names-AreApart)
