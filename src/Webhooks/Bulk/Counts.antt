-- ===== src/Webhooks/Bulk/Counts.antt =====
-- About the table and the counts that `createBulk` of src/modules/webhook/webhook.service.ts leaves.
use law_cast_backend.Base.{
  ℕ, ◌+◌, ◌-◌, ◌≤◌, ◌≡◌, inl, inr, Bool-cases, Option-cases, refl, ap, ◌∙◌, List, [], ◌∷◌, ◌++◌,
  Option, some, Bool, true, false, if_elim, find_by, map, any, All, arith, length, length-append,
  length-map,
}
use law_cast_backend.Change.Text.{Text, text_eq}
use law_cast_backend.Change.Diff.Tracked.{text_eq→eq}
use law_cast_backend.Webhooks.{
  Webhook, Table, Location, find_url, save, insert, activated, new_webhook, create_normalized,
  normalize_webhook_url,
}
use law_cast_backend.Webhooks.Bulk.{create_bulk, create_each, BulkResult, counted, unique_urls}
use law_cast_backend.Webhooks.Urls.{IsValid, IsOnly, found-IsOnly}
use law_cast_backend.Webhooks.Registry.{create_normalized-IsValid}
use law_cast_backend.Webhooks.Create.{
  active_count, weight, active_count-save, create_normalized_lem, is_active_at,
}

-- Whether some active webhook has the url.
abbrev pub is_registered : Text → List Webhook → Bool
is_registered url rows = any (is_active_at url) rows

-- How the counts follow the table from one state to a later one, over at most `n` urls.
pub record Counts (rows rows' : List Webhook) (b b' : BulkResult) (n : ℕ) : Type 0 where
  pub grown : length rows' + b.created ≡ length rows + b'.created
  pub woken :
      active_count rows' + b.created + b.reactivated
      ≡ active_count rows + b'.created + b'.reactivated
  pub few : b'.created + b'.reactivated ≤ b.created + b.reactivated + n
  pub same : b'.duplicates ≡ b.duplicates

active_count-snoc :
    (rows : List Webhook) (w : Webhook)
    → active_count (rows ++ w ∷ []) ≡ active_count rows + weight w
active_count-snoc [] w = ground arith
active_count-snoc (x ∷ rows) w = ground (arith, active_count-snoc rows w)

length-save : (w : Webhook) (rows : List Webhook) → length (save w rows) ≡ length rows
unfolding save
length-save w rows = length-map _ rows

is_registered-snoc :
    (u : Text) (rows : List Webhook) (w : Webhook)
    → is_registered u rows ≡ true
    → is_registered u (rows ++ w ∷ []) ≡ true
is_registered-snoc u [] w h = cc
is_registered-snoc u (x ∷ rows) w h = ground (arith, is_registered-snoc u rows w)

is_registered-save :
    (u : Text) (w r : Webhook) (rows : List Webhook)
    → w.id ≡ r.id
    → r.is_active ≡ false
    → All (IsOnly r) rows
    → is_registered u rows ≡ true
    → is_registered u (save w rows) ≡ true
unfolding save
is_registered-save u w r [] e n h k = cc
is_registered-save u w r (x ∷ rows) e n h k =
    ground (arith, h.0, is_registered-save u w r rows e n h.1, ap (λ (q : Webhook). q.is_active))

is_registered-create :
    (u : Text) (t : Table) (url : Text) (now : ℕ)
    → IsValid t
    → is_registered u t.rows ≡ true
    → is_registered u (create_normalized t url now).0.rows ≡ true
unfolding create_normalized find_url insert
is_registered-create u t url now v h = elim (Option-cases (find_url url t.rows)) [
  | inl k ↦
      rw (k, create_normalized) (is_registered-snoc u t.rows (new_webhook t.next_id url now) h)
  | inr found ↦
      let (r, k) = found in
      rw (k, create_normalized)
        (if_elim (λ (x : Table × Webhook). is_registered u x.0.rows ≡ true) r.is_active _ _ (λ a. h)
          (λ a.
            is_registered-save u (activated now r) r t.rows refl a
              (found-IsOnly (λ q. text_eq q.url url) t.rows r k v.ids) h))
]

Counts-create :
    (t : Table) (url : Text) (now : ℕ) (b : BulkResult)
    → IsValid t
    → Counts t.rows (create_normalized t url now).0.rows b (counted t url b) 1
unfolding create_normalized counted find_url insert
Counts-create t url now b v = elim (Option-cases (find_url url t.rows)) [
  | inl k ↦
      rw (k, create_normalized, counted)
        (let w = new_webhook t.next_id url now in
          record {
            grown = omega (arith, length-append t.rows (w ∷ []));
            woken = omega (arith, active_count-snoc t.rows w);
            few = omega arith;
            same = refl;
          })
  | inr found ↦
      let (r, k) = found in
      elim (Bool-cases r.is_active) [
        | inl a ↦
            rw (k, create_normalized, counted, a)
              (record { grown = refl; woken = refl; few = omega arith; same = refl })
        | inr a ↦
            rw (k, create_normalized, counted, a)
              (record {
                grown = omega (arith, length-save (activated now r) t.rows);
                woken = ground (
                  arith,
                  a,
                  active_count-save (λ q. text_eq q.url url) (activated now r) r t.rows k refl
                      v.ids,
                );
                few = omega arith;
                same = refl;
              })
      ]
]

registered_each :
    (u : Text) (t : Table) (urls : List Text) (now : ℕ) (b : BulkResult)
    → IsValid t
    → is_registered u t.rows ≡ true
    → is_registered u (create_each t urls now b).0.rows ≡ true
unfolding create_each
registered_each u t [] now b v h = h
registered_each u t (url ∷ urls) now b v h =
    registered_each u (create_normalized t url now).0 urls now (counted t url b)
      (create_normalized-IsValid t url now v) (is_registered-create u t url now v h)

found_any :
    (p : Webhook → Bool) (rows : List Webhook) (w : Webhook)
    → find_by p rows ≡ some w
    → any p rows ≡ true
found_any p [] w h = cc
found_any p (x ∷ rows) w h = ground (arith, found_any p rows w)

Counts-each :
    (t : Table) (urls : List Text) (now : ℕ) (b : BulkResult)
    → IsValid t
    → Counts t.rows (create_each t urls now b).0.rows b (create_each t urls now b).1 (length urls)
      × All (λ u. is_registered u (create_each t urls now b).0.rows ≡ true) urls
unfolding create_each
Counts-each t [] now b v =
    (record { grown = refl; woken = refl; few = omega arith; same = refl }, tt)
Counts-each t (url ∷ urls) now b v =
    let t' = (create_normalized t url now).0 in
    let b' = counted t url b in
    let v' = create_normalized-IsValid t url now v in
    let first = Counts-create t url now b v in
    let (rest, here) = Counts-each t' urls now b' v' in
    (
      record {
        grown = omega (arith, first.grown, rest.grown);
        woken = omega (arith, first.woken, rest.woken);
        few = omega (arith, first.few, rest.few);
        same = rest.same ∙ first.same;
      },
      (
        registered_each url t' urls now b' v'
            (found_any (is_active_at url) t'.rows _ (create_normalized_lem t url now v).0),
        here,
      ),
    )

unique_urls-length-le : (seen urls : List Text) → length (unique_urls seen urls) ≤ length urls
unfolding unique_urls
unique_urls-length-le seen [] = omega arith
unique_urls-length-le seen (u ∷ us) =
    ground (arith, unique_urls-length-le seen us, unique_urls-length-le (u ∷ seen) us)

All-seen :
    (P : Text → Type 0) (seen : List Text) (u : Text)
    → any (text_eq u) seen ≡ true
    → All P seen
    → P u
All-seen P [] u h k = absurd cc
All-seen P (s ∷ seen) u h k = elim (Bool-cases (text_eq u s)) [
  | inl e ↦ rw (text_eq→eq u s e) k.0
  | inr e ↦ All-seen P seen u (ground (arith, h, e)) k.1
]

All-unique_urls :
    (P : Text → Type 0) (seen urls : List Text)
    → All P seen
    → All P (unique_urls seen urls)
    → All P urls
unfolding unique_urls
All-unique_urls P seen [] h k = tt
All-unique_urls P seen (u ∷ us) h k =
    if_elim (λ ys. All P ys → P u × All P us) (any (text_eq u) seen) _ _
      (λ e rest. (All-seen P seen u e h, All-unique_urls P seen us h rest))
      (λ e rest. (rest.0, All-unique_urls P (u ∷ seen) us (rest.0, h) rest.1)) k

All-map :
    (P : Text → Type 0) (f : Text → Text) (xs : List Text)
    → All P (map f xs)
    → All (λ x. P (f x)) xs
All-map P f [] h = tt
All-map P f (x ∷ xs) h = (h.0, All-map P f xs h.1)

-- On a table with unique ids and urls, `createBulk` adds as many rows as it counts as created, makes
-- as many webhooks active as it counts as created or reactivated, counts no more than it was given,
-- and leaves an active webhook for every url that it was given.
pub create_bulk_lem :
    (parse : Text → Option Location) (t : Table) (urls : List Text) (now : ℕ)
    → IsValid t
    → let (t', b) = create_bulk parse t urls now in
      (length t'.rows ≡ length t.rows + b.created)
      × (active_count t'.rows ≡ active_count t.rows + b.created + b.reactivated)
      × (b.created + b.reactivated + b.duplicates ≤ length urls)
      × All (λ u. is_registered (normalize_webhook_url parse u) t'.rows ≡ true) urls
unfolding create_bulk
create_bulk_lem parse t urls now v =
    let names = map (normalize_webhook_url parse) urls in
    let unique = unique_urls [] names in
    let none_yet : BulkResult = record {
      created = 0;
      reactivated = 0;
      duplicates = length urls - length unique;
    } in
    let (c, all) = Counts-each t unique now none_yet v in
    let shorter = unique_urls-length-le [] names in
    let same = length-map (normalize_webhook_url parse) urls in
    (
      omega (arith, c.grown),
      omega (arith, c.woken),
      omega (arith, c.few, c.same, shorter, same),
      All-map _ (normalize_webhook_url parse) urls (All-unique_urls _ [] names tt all),
    )
