-- ===== src/Direct.antt =====
-- internal/adapters/outbound/directprovider/client.go: `Verify` and `checkPiece`, the proof that a
-- storage node gives of one bag.
pub mod Soundness
pub mod Prover
pub mod Rates
use mytonprovider_agent.Common.{
  ℕ, ◌+◌, ◌*◌, ◌/◌, ◌%◌, ◌^◌, ◌||◌, ◌&&◌, not, ◌++◌, ◌==◌, Bool, true, false, Option, none, some,
  List, [], ◌∷◌, ltb, Text, if◌then◌else◌, is_empty, text_eq, codes,
}
use mytonprovider_agent.Domain.{ProviderEndpoint, ReasonCode}
use mytonprovider_agent.Strings.Decimal.{format_uint}
use mytonprovider_agent.Strings.Hex.{decode_hex}
use mytonprovider_agent.World.{World}

-- `storage.TorrentInfo`, as far as the code reads it
pub record TorrentInfo : Type 0 where
  pub piece_size : ℕ  -- uint32
  pub file_size : ℕ  -- uint64
  pub root_hash : List ℕ

-- The ADNL gateway, RLDP and the cells of tonutils-go, with what they answer at a tick; `none` is
-- an error. `peer_known` is whether `rl.GetADNL()` is an `adnl.Peer`; `int31n n` is what
-- `rand.Int31n(n)` gives; `slow` is whether more than five seconds have passed since `est`, which
-- only decides on a `Reinit`.
pub record Network : Type 1 where
  pub Cell : Type 0
  pub register_client : Text → List ℕ → ℕ → Bool
  pub ping : Text → ℕ → Bool
  pub peer_known : Text → Bool
  pub overlay_hash : List ℕ → Option (List ℕ)
  pub torrent_info : Text → List ℕ → ℕ → Option (List ℕ)
  pub get_piece : Text → List ℕ → ℕ → ℕ → Option (List ℕ)
  pub from_boc : List ℕ → Option Cell
  pub cell_hash : Cell → List ℕ
  pub load_torrent : Cell → Option TorrentInfo
  pub check_proof : Cell → List ℕ → Bool
  pub int31n : ℕ → ℕ → ℕ

-- a check that ends the function with a reason, or goes on
abbrev pub Check : Type 0
Check = World → ReasonCode × World

abbrev pub stop : ReasonCode → Check
stop reason w = (reason, w)

unfoldable pub unless : Bool → ReasonCode → Check → Check
unless false reason k w = (reason, w)
unless true reason k w = k w

unfoldable pub require {ℓ} : {A : Type ℓ} → Option A → ReasonCode → (A → Check) → Check
require none reason k w = (reason, w)
require (some a) reason k w = k a w

-- a call that leaves the process
unfoldable pub asking {ℓ} : {A : Type ℓ} → (ℕ → A) → (A → Check) → Check
asking answer k w = k (answer w.tick) (record w { tick = w.tick + 1 })

-- `int32(torrent.FileSize / uint64(torrent.PieceSize))`, as a bit pattern; 0 if there is no size
unfoldable pub total_pieces : TorrentInfo → ℕ
total_pieces t = if t.piece_size == 0 then 0 else t.file_size / t.piece_size % 2 ^ 32

-- `totalPieces > 0` of an int32
abbrev is_positive : ℕ → Bool
is_positive n = ltb 0 n && ltb n (2 ^ 31)

unfoldable pub piece_id : TorrentInfo → (ℕ → ℕ) → ℕ
unfolding total_pieces
piece_id t int31n = if is_positive (total_pieces t) then int31n (total_pieces t) else 1

-- checkPiece after the header is read: the piece and its proof
check_proof_of : Network → Text → List ℕ → TorrentInfo → Check
unfolding asking require unless piece_id
check_proof_of net addr over torrent =
    asking (λ t. net.int31n (total_pieces torrent) t)
      λ drawn. asking (net.get_piece addr over (piece_id torrent (λ n. drawn))) λ answer.
        require answer ReasonCode.cant_get_piece λ piece.
          require (net.from_boc piece) ReasonCode.cant_parse_boc λ proof.
            unless (net.check_proof proof torrent.root_hash) ReasonCode.proof_check_failed
              (stop ReasonCode.valid_storage_proof)

-- checkPiece, the header of the bag: its hash is the bag's id
check_header : Network → Text → List ℕ → List ℕ → List ℕ → Check
unfolding require unless check_proof_of
check_header net addr bag over header =
    require (net.from_boc header) ReasonCode.invalid_header λ cl.
      unless (text_eq (net.cell_hash cl) bag) ReasonCode.invalid_header
        (require (net.load_torrent cl) ReasonCode.invalid_header (check_proof_of net addr over))

unfoldable pub check_piece : Network → Text → Text → Check
unfolding asking require unless check_header
check_piece net addr bag_id = unless (net.peer_known addr) ReasonCode.unknown_peer (
    asking (net.ping addr) λ pong. unless pong ReasonCode.ping_failed (
      require (decode_hex bag_id) ReasonCode.invalid_bag_id λ bag.
        require (net.overlay_hash bag) ReasonCode.invalid_bag_id λ over.
          asking (net.torrent_info addr over)
            λ answer. require answer ReasonCode.get_info_failed (check_header net addr bag over)))

-- `ep.Storage.IP + ":" + strconv.Itoa(int(ep.Storage.Port))`; a port is not negative
abbrev pub storage_addr : ProviderEndpoint → Text
storage_addr ep = ep.storage.ip ++ codes ":" ++ format_uint ep.storage.port

-- the IP, the port and the public key of the storage node are set
abbrev pub has_storage : ProviderEndpoint → Bool
has_storage ep =
    not (is_empty ep.storage.ip || ep.storage.port == 0 || is_empty ep.storage.public_key)

unfoldable pub verify : Network → ProviderEndpoint → Text → World → ReasonCode × World
unfolding asking unless check_piece
verify net ep bag_id = unless (has_storage ep) ReasonCode.ip_not_found (
    asking (net.register_client (storage_addr ep) ep.storage.public_key) λ created.
      unless created ReasonCode.cant_create_peer (
        asking (net.ping (storage_addr ep)) λ pong.
          unless pong ReasonCode.failed_initial_ping (check_piece net (storage_addr ep) bag_id)))
