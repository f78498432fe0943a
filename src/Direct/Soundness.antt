-- ===== src/Direct/Soundness.antt =====
-- What a valid proof rests on, and that no endpoint from the database can give one.
use mytonprovider_agent.Common.{
  ℕ, ◌+◌, ◌≡◌, refl, Bool, true, false, Option, none, some, List, Text, text_eq, text_eq_iff,
}
use mytonprovider_agent.Domain.{ProviderEndpoint, ReasonCode}
use mytonprovider_agent.Strings.Hex.{decode_hex}
use mytonprovider_agent.World.{World}
use mytonprovider_agent.Direct.{
  Network, TorrentInfo, Check, unless, require, asking, has_storage, storage_addr, total_pieces,
  piece_id, check_proof_of, check_header, check_piece, verify,
}

abbrev Accepts : Check → World → Type 0
Accepts m w = (m w).0 ≡ ReasonCode.valid_storage_proof

abbrev Fails : ReasonCode → Type 0
Fails r = (r ≡ ReasonCode.valid_storage_proof) → ⊥

unless_lem :
    (b : Bool) (r : ReasonCode) (k : Check) (w : World)
    → Fails r
    → Accepts (unless b r k) w
    → (b ≡ true) × Accepts k w
unfolding unless
unless_lem true r k w f h = (refl, h)
unless_lem false r k w f h = absurd (f h)

require_lem {ℓ} :
    {A : Type ℓ} (o : Option A) (r : ReasonCode) (k : A → Check) (w : World)
    → Fails r
    → Accepts (require o r k) w
    → (a : A) × (o ≡ some a) × Accepts (k a) w
unfolding require
require_lem none r k w f h = absurd (f h)
require_lem (some a) r k w f h = (a, refl, h)

-- What a valid proof of a bag has been checked against.
pub record IsProven (net : Network) (bag_id : Text) : Type 0 where
  pub bag : List ℕ
  pub header : net.Cell
  pub torrent : TorrentInfo
  pub proof : net.Cell
  pub bag_decoded : decode_hex bag_id ≡ some bag
  pub header_hash : net.cell_hash header ≡ bag
  pub torrent_loaded : net.load_torrent header ≡ some torrent
  pub piece_proved : net.check_proof proof torrent.root_hash ≡ true

module _ (net : Network) (addr bag_id : Text) where
  header_lem :
      (bag over header : List ℕ) (w : World)
      → decode_hex bag_id ≡ some bag
      → Accepts (check_header net addr bag over header) w
      → IsProven net bag_id
  unfolding check_header check_proof_of asking
  header_lem bag over header w decoded h =
      let (cl, _, h1) =
        require_lem (net.from_boc header) ReasonCode.invalid_header _ w (λ e. cc e) h in
      let (same, h2) =
        unless_lem (text_eq (net.cell_hash cl) bag) ReasonCode.invalid_header _ w (λ e. cc e) h1 in
      let (torrent, loaded, h3) =
        require_lem (net.load_torrent cl) ReasonCode.invalid_header _ w (λ e. cc e) h2 in
      let (piece, _, h4) =
        require_lem
          (net.get_piece addr over
            (piece_id torrent (λ n. net.int31n (total_pieces torrent) w.tick)) (w.tick + 1))
          ReasonCode.cant_get_piece _ (record w { tick = w.tick + 1 + 1 }) (λ e. cc e) h3 in
      let (proof, _, h5) =
        require_lem (net.from_boc piece) ReasonCode.cant_parse_boc _ _ (λ e. cc e) h4 in
      let (proved, _) =
        unless_lem (net.check_proof proof torrent.root_hash) ReasonCode.proof_check_failed _ _
          (λ e. cc e) h5 in
      record {
        bag = bag;
        header = cl;
        torrent = torrent;
        proof = proof;
        bag_decoded = decoded;
        header_hash = (text_eq_iff (net.cell_hash cl) bag).0 same;
        torrent_loaded = loaded;
        piece_proved = proved;
      }

  piece_lem : (w : World) → Accepts (check_piece net addr bag_id) w → IsProven net bag_id
  unfolding check_piece asking
  piece_lem w h =
      let (_, h1) = unless_lem (net.peer_known addr) ReasonCode.unknown_peer _ w (λ e. cc e) h in
      let (_, h2) =
        unless_lem (net.ping addr w.tick) ReasonCode.ping_failed _ (record w { tick = w.tick + 1 })
          (λ e. cc e) h1 in
      let (bag, decoded, h3) =
        require_lem (decode_hex bag_id) ReasonCode.invalid_bag_id _ (record w { tick = w.tick + 1 })
          (λ e. cc e) h2 in
      let (over, _, h4) =
        require_lem (net.overlay_hash bag) ReasonCode.invalid_bag_id _
          (record w { tick = w.tick + 1 }) (λ e. cc e) h3 in
      let (header, _, h5) =
        require_lem (net.torrent_info addr over (w.tick + 1)) ReasonCode.get_info_failed _
          (record w { tick = w.tick + 1 + 1 }) (λ e. cc e) h4 in
      header_lem bag over header _ decoded h5

-- A valid storage proof means that a Merkle proof was checked against the root hash of a header
-- whose own hash is the bag's id.
pub verify-IsProven :
    (net : Network) (ep : ProviderEndpoint) (bag_id : Text) (w : World)
    → (verify net ep bag_id w).0 ≡ ReasonCode.valid_storage_proof
    → IsProven net bag_id
unfolding verify asking
verify-IsProven net ep bag_id w h =
    let (_, h1) = unless_lem (has_storage ep) ReasonCode.ip_not_found _ w (λ e. cc e) h in
    let (_, h2) =
      unless_lem (net.register_client (storage_addr ep) ep.storage.public_key w.tick)
        ReasonCode.cant_create_peer _ (record w { tick = w.tick + 1 }) (λ e. cc e) h1 in
    let (_, h3) =
      unless_lem (net.ping (storage_addr ep) (w.tick + 1)) ReasonCode.failed_initial_ping _
        (record w { tick = w.tick + 1 + 1 }) (λ e. cc e) h2 in
    piece_lem net _ bag_id _ h3
