-- ===== src/Ledger/Charges.antt =====
-- What a purchase does, and that a purchase that raises does nothing.
use mathlib.Core.Option
use kupio_backend.Base.{
  ℕ, ◌+◌, ◌*◌, ◌≡◌, refl, ap, inl, inr, Bool, true, false, ◌&&◌, none, List, [], ◌∷◌, ◌++◌, arith,
  ◌==◌, if◌then◌else◌, Option-cases, ◌∙◌,
}
use kupio_backend.Base.Int.{ℤ, ◌-ℤ◌, leb_ℤ}
use kupio_backend.Base.Lists.{
  UniqueBy, select, head?, update_where, some_row, head?-select-update_where, head?-select-holds,
}
use kupio_backend.Base.Members.{In, some_row-In, head?-none}
use kupio_backend.Models.{Database}
use kupio_backend.Models.Users.{User}
use kupio_backend.Models.Listings.{Listing}
use kupio_backend.Models.Listings
use kupio_backend.Models.Promotions.{
  PromotionPacket, ListingPromotion, PromotionStatus, PromotionType, type_eq,
}
use kupio_backend.Core.Errors.{Error}
use kupio_backend.Core.Repository
use kupio_backend.Core.Action.{Result, DbSession, ok, err, opened}
use kupio_backend.Core.Transactions.{read-cases, in_uow-cases}
use kupio_backend.Promotions.{
  pay_and_promote, purchase, get_packet, validate_purchase, get_active_by_listing_and_type,
  has_type, is_live,
}
use kupio_backend.Promotions.Running.{IsRunning-is_live}
use kupio_backend.Listings.Ranking.{Promotes}
use kupio_backend.Ledger.Books.{IsLedger, update_where_hit}
use kupio_backend.Ledger.Delivery.{balance_of}
use kupio_backend.Ledger.Purchase.{
  covers, take_from, pay_and_promote-local, pay_and_promote-ok, get_packet-reads,
  validate_purchase-reads,
}

-- A purchase that raises any error leaves the database as it was.
pub purchase-err :
    (transaction_id id now : ℕ) (user : User) (listing : Listing) (packet_id : ℕ) (db : Database)
    (e : Error)
    → (purchase transaction_id id now user listing packet_id (opened db)).0 ≡ err e
    → (purchase transaction_id id now user listing packet_id (opened db)).1 ≡ opened db
unfolding purchase
purchase-err transaction_id id now user listing packet_id db e =
    read-cases P (get_packet packet_id) _ db (get_packet-reads packet_id (opened db)) (λ _ _. refl)
      λ packet _.
        read-cases P (validate_purchase now listing packet) _ db
          (validate_purchase-reads now listing packet (opened db)) (λ _ _. refl)
          λ _ _.
            in_uow-cases P (pay_and_promote transaction_id id now user listing packet) db
              (pay_and_promote-local transaction_id id now user listing packet db) (λ _ _. refl)
              (λ _ _ h. cc h)
  where
    P : Result ListingPromotion × DbSession → Type 0
    P r = r.0 ≡ err e → r.1 ≡ opened db

validate_purchase-ok :
    (now : ℕ) (listing : Listing) (packet : PromotionPacket) (s : DbSession)
    → (validate_purchase now listing packet s).0 ≡ ok tt
    → (Listings.is_active listing.status ≡ true)
      × (packet.is_active ≡ true)
      × ((get_active_by_listing_and_type now listing.id packet.type s).0 ≡ ok none)
unfolding validate_purchase
validate_purchase-ok now listing packet s h = (ground arith, ground arith, ground arith)

-- A refused duplicate: no promotion of the listing runs whose packet has this type.
none-Promotes :
    (now : ℕ) (listing : Listing) (type : PromotionType) (db : Database)
    → (get_active_by_listing_and_type now listing.id type (opened db)).0 ≡ ok none
    → (p : ListingPromotion) (k : PromotionPacket) → In p db.listing_promotions
    → In k db.promotion_packets
    → k.type ≡ type
    → Promotes now listing p k
    → ⊥
unfolding get_active_by_listing_and_type Repository.get
none-Promotes now listing type db free p k i j same h =
    let test : ListingPromotion → Bool =
      λ q. q.listing_id == listing.id && is_live now q && has_type db type q in
    let live = IsRunning-is_live now p h.2 in
    let typed : has_type db type p ≡ true =
      some_row-In (λ k'. k'.id == p.packet_id && type_eq k'.type type) db.promotion_packets k j
        (rw same (ground (arith, h.1))) in
    let first_none : head? (select test db.listing_promotions) ≡ none = cc free in
    let there : (p.listing_id == listing.id) ≡ true = ground (arith, h.0) in
    let missing : test p ≡ false = head?-none test db.listing_promotions p first_none i in
    let hit : test p ≡ true = rw (there, live, typed) refl in absurd cc

-- What a purchase that returns has done: the listing and the packet were active and the listing
-- had no running promotion of the packet's type; the price has left the buyer's balance and no other
-- balance has changed; the promotion runs from now for the packet's days.
pub record IsPurchased (now : ℕ) (user : User) (listing : Listing) (packet : PromotionPacket)
    (db db' : Database) (p : ListingPromotion) : Type 0 where
  pub on_active_listing : Listings.is_active listing.status ≡ true
  pub active_packet : packet.is_active ≡ true
  pub no_other :
      (p' : ListingPromotion) (k : PromotionPacket)
      → In p' db.listing_promotions
      → In k db.promotion_packets
      → k.type ≡ packet.type
      → Promotes now listing p' k
      → ⊥
  pub charged :
      (k : ℕ)
      → balance_of k db'
        ≡ Option.map (λ b. if k == user.id then b -ℤ packet.price else b) (balance_of k db)
  pub placed : (p.listing_id ≡ listing.id) × (p.packet_id ≡ packet.id) × (p.starts_at ≡ now)
  pub lasts : p.expires_at ≡ now + packet.duration_days * 86400
  pub live : p.status ≡ PromotionStatus.active
  pub recorded : db'.listing_promotions ≡ db.listing_promotions ++ p ∷ []

balance_of-taken :
    (user_id k : ℕ) (amount : ℤ) (us : List User)
    → UniqueBy (λ u. u.id) us
    → some_row (covers user_id amount) us ≡ true
    → Option.map
        (λ u. u.balance)
        (head?
          (select (λ u. u.id == k) (update_where (covers user_id amount) (take_from amount) us)))
      ≡ Option.map
          (λ b. if k == user_id then b -ℤ amount else b)
          (Option.map (λ u. u.balance) (head? (select (λ u. u.id == k) us)))
balance_of-taken user_id k amount us n found =
    rw (update_where_hit user_id (λ u. leb_ℤ amount u.balance) (take_from amount) us n found) (
      rw
        (head?-select-update_where (λ u. u.id == k) (λ u. u.id == user_id) (take_from amount) us
          (λ u. refl))
        (elim (Option-cases (head? (select (λ u. u.id == k) us))) [
          | inl missing ↦ rw missing
          | inr (u, here) ↦
              let same = head?-select-holds (λ v. v.id == k) us u here in rw here (ground arith)
        ]))

module _ (transaction_id id now : ℕ) (user : User) (listing : Listing) (packet : PromotionPacket)
    (db : Database) (p : ListingPromotion) where
  abbrev bought : ListingPromotion
  bought = record {
    id = id;
    listing_id = listing.id;
    packet_id = packet.id;
    transaction_id = transaction_id;
    starts_at = now;
    expires_at = now + packet.duration_days * 86400;
    status = PromotionStatus.active;
    created_at = now;
  }

  pay_and_promote-promotes :
      (pay_and_promote transaction_id id now user listing packet (opened db)).0 ≡ ok p
      → (p ≡ bought)
        × ((pay_and_promote transaction_id id now user listing packet
              (opened db)).1.working.listing_promotions
            ≡ db.listing_promotions ++ bought ∷ [])
  unfolding pay_and_promote Repository.add Repository.update
  pay_and_promote-promotes h = (ground arith, ground arith)

  pay_and_promote-IsPurchased :
      IsLedger db
      → (validate_purchase now listing packet (opened db)).0 ≡ ok tt
      → (pay_and_promote transaction_id id now user listing packet (opened db)).0 ≡ ok p
      → IsPurchased now user listing packet db
          (pay_and_promote transaction_id id now user listing packet (opened db)).1.working
          p
  pay_and_promote-IsPurchased l v h =
      let (found, eu, et, es) =
        pay_and_promote-ok transaction_id id now user listing packet db p h in
      let (ep, el) = pay_and_promote-promotes h in
      let (listing_ok, packet_ok, none_live) =
        validate_purchase-ok now listing packet (opened db) v in
      record {
        on_active_listing = listing_ok;
        active_packet = packet_ok;
        no_other = none-Promotes now listing packet.type db none_live;
        charged = λ k. rw eu (balance_of-taken user.id k packet.price db.users l.unique found);
        placed = rw ep (refl, refl, refl);
        lasts = rw ep;
        live = rw ep;
        recorded = rw ep el;
      }

-- Where the books are in order, a purchase that returns was of a packet that exists; listing and packet
-- were active, and no promotion of the listing was running whose packet has the same type, by the
-- rows of the tables; exactly the buyer's balance fell, by the price; and the one new promotion is
-- active and runs from now for the packet's days.
pub purchase-ok :
    (transaction_id id now : ℕ) (user : User) (listing : Listing) (packet_id : ℕ) (db : Database)
    (p : ListingPromotion)
    → IsLedger db
    → (purchase transaction_id id now user listing packet_id (opened db)).0 ≡ ok p
    → (packet : PromotionPacket) × ((get_packet packet_id (opened db)).0 ≡ ok packet)
      × IsPurchased now user listing packet db
          (purchase transaction_id id now user listing packet_id (opened db)).1.committed
          p
unfolding purchase
purchase-ok transaction_id id now user listing packet_id db p l =
    read-cases P (get_packet packet_id) _ db (get_packet-reads packet_id (opened db))
      (λ _ h. absurd (ground arith))
      λ packet e.
        read-cases P (validate_purchase now listing packet) _ db
          (validate_purchase-reads now listing packet (opened db)) (λ _ h. absurd (ground arith))
          λ v ev.
            in_uow-cases P (pay_and_promote transaction_id id now user listing packet) db
              (pay_and_promote-local transaction_id id now user listing packet db)
              (λ _ h. absurd (ground arith))
              (λ p' ok_p h.
                let same = ap (λ (r : Result ListingPromotion). r) (ok_p ∙ h) in
                (
                  packet,
                  e,
                  pay_and_promote-IsPurchased transaction_id id now user listing packet db p l ev
                      same,
                ))
  where
    P : Result ListingPromotion × DbSession → Type 0
    P r =
        r.0 ≡ ok p
        → (packet : PromotionPacket) × ((get_packet packet_id (opened db)).0 ≡ ok packet)
          × IsPurchased now user listing packet db r.1.committed p
