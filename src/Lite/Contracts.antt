-- ===== src/Lite/Contracts.antt =====
-- `GetStorageContractsInfo` of liteclient/client.go.
use mytonprovider_agent.Common.{ℕ, Option, none, some, List, [], ◌∷◌, ◌++◌, Text, if◌then◌else◌}
use mytonprovider_agent.Strings.Hex.{encode_hex}
use mytonprovider_agent.World.{Act, pure, ask, attempt_or, wrapping, ◌>>=◌}
use mytonprovider_agent.Lite.{LiteContract, StorageInfo, Api}

abbrev pub lite_contract : Text → StorageInfo → LiteContract
lite_contract a info = record {
  address = a;
  bag_id = encode_hex info.torrent_hash;
  owner_addr = info.owner_addr;
  size = info.size;
  chunk_size = info.chunk_size;
}

-- what one address adds: nothing where the contract is not there
abbrev found_contract : Text → Option StorageInfo → List LiteContract
found_contract a none = []
found_contract a (some info) = lite_contract a info ∷ []

-- the loop `for _, a := range addrs`
unfoldable pub contracts_from : Api → ℕ → List Text → List LiteContract → Act (List LiteContract)
unfolding ask attempt_or pure
contracts_from api block [] out = pure out
contracts_from api block (a ∷ addrs) out =
    if api.parse_addr a
    then attempt_or (ask (api.storage_info block a)) (contracts_from api block addrs out)
        (λ info. contracts_from api block addrs (out ++ found_contract a info))
    else contracts_from api block addrs out

unfoldable pub get_storage_contracts_info : Api → List Text → Act (List LiteContract)
unfolding ◌>>=◌ ask wrapping contracts_from
get_storage_contracts_info api addrs = do
  block ← wrapping "get masterchain info err" (ask api.masterchain_info)
  contracts_from api block addrs []
