-- ===== src/Membership/Advertise.antt =====
-- What an advertisement changes in the table of a node.
use cs525_project.Common.Dict.{lookup, insert, keys, IsDistinct, insert-IsDistinct, lookup-insert}
use cs525_project.Common.Parts.{parts, has_no_comma, parts-single, parts-append}
use cs525_project.Common.{ap, ℕ, String, ◌≡◌, some, [], ◌∷◌, ok, str_eq, if◌then◌else◌, true, ◌∙◌}
use cs525_project.Membership.{
  Table, on_two_parts, on_parts, advertisement, bluetooth_process_advertisement,
  maintain_existing_connection,
}

-- What `bluetooth_sender` sends, an address and an id without commas, is stored by the node or the edge
-- server that receives it, under the id with the time of its arrival, whatever was there; every other
-- node is looked up as before, and a table without double keys stays one.
pub process_advertisement-lookup :
    (address id : String) (now : ℕ) (m : Table)
    → has_no_comma address ≡ true
    → has_no_comma id ≡ true
    → IsDistinct (keys m)
    → (after : Table) × (bluetooth_process_advertisement (advertisement address id) now m
        ≡ ok after)
      × (maintain_existing_connection (advertisement address id) now m ≡ ok after)
      × IsDistinct (keys after)
      × ((i : String) → lookup i after ≡ (if str_eq id i then some (address, now) else lookup i m))
unfolding bluetooth_process_advertisement maintain_existing_connection
process_advertisement-lookup address id now m a b d =
    let two : parts (advertisement address id) ≡ address ∷ id ∷ [] =
      parts-append address id a ∙ ap (λ ps. address ∷ ps) (parts-single id b) in
    (
      insert id (address, now) m,
      ap (λ ps. on_two_parts ps now m) two,
      ap (λ ps. on_parts ps now m) two,
      insert-IsDistinct id (address, now) m d,
      λ i. lookup-insert id i (address, now) m,
    )
