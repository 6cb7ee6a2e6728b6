-- ===== src/HostPath/Listing/Walk.antt =====
-- A client that follows the tokens of `ListSnapshots` from page to page, while the state stays as it is.
use csi.Prelude.{
  ltb, ℕ, zero, suc, ◌+◌, ◌-◌, ◌≤◌, ◌<◌, ◌^◌, String, ◌≡◌, refl, sym, ap, ◌∙◌, Option, none, some,
  List, [], ◌∷◌, ◌++◌, length, ◌==◌, take, drop, take-append-drop, length-drop, arith,
  if◌then◌else◌, map, Bool-cases, inl, inr, String-discrete,
}
use csi.Prelude.Int.{ℤ, pos}
use csi.Prelude.Uint32.{parse_uint32-decimal, decimal-nonempty}
use csi.Prelude.Decimal.{decimal}
use csi.Exec.{Result, ok, err, panicked}
use csi.HostPath.Snapshots.{SnapshotInfo, listed_info, ListSnapshotsResponse}
use csi.Prelude.Sort.{sort, length-sort}
use csi.State.Types.{Snapshot}
use csi.State.Store.{snapshot_key}
use csi.HostPath.Listing.{list_all, starting_index}
use csi.HostPath.Listing.Pages.{page_size, page_at, list_from-page_at, length-map, int32_self}

-- The entries of a page before those of the pages that follow.
joined : ListSnapshotsResponse → Option (List SnapshotInfo) → Option (List SnapshotInfo)
joined r none = if r.next_token == "" then some r.entries else none
joined r (some later) = if r.next_token == "" then some r.entries else some (r.entries ++ later)

after_page :
    (String → Option (List SnapshotInfo))
    → Result ListSnapshotsResponse
    → Option (List SnapshotInfo)
unfolding joined
after_page next (ok r) = joined r (next r.next_token)
after_page next (err e) = none
after_page next panicked = none

-- All entries from the token on, if at most so many pages hold them and none of the calls fails.
unfoldable pub follow : ℕ → List Snapshot → ℤ → String → Option (List SnapshotInfo)
unfolding after_page
follow zero snapshots max token = none
follow (suc pages) snapshots max token = after_page (follow pages snapshots max) (
    list_all snapshots (record {
      snapshot_id = "";
      source_volume_id = "";
      starting_token = token;
      max_entries = max;
    }))

drop_none : {A : Type 0} (n : ℕ) → drop {A = A} n [] ≡ []
drop_none zero = refl
drop_none (suc n) = refl

drop-drop : {A : Type 0} (k i : ℕ) (xs : List A) → drop k (drop i xs) ≡ drop (i + k) xs
drop-drop k zero xs = ap (λ n. drop n xs) (omega arith)
drop-drop k (suc i) [] = drop_none k ∙ sym (drop_none (suc i + k))
drop-drop k (suc i) (x ∷ xs) =
    let later : suc (i + k) ≡ suc i + k = omega arith in
    drop-drop k i xs ∙ ap (λ n. drop n (x ∷ xs)) later

take_all : {A : Type 0} (k : ℕ) (xs : List A) → length xs ≤ k → take k xs ≡ xs
take_all zero [] h = refl
take_all zero (x ∷ xs) h = absurd (omega arith)
take_all (suc k) [] h = refl
take_all (suc k) (x ∷ xs) h = ap (λ ys. x ∷ ys) (take_all k xs (omega arith))

starting_index-decimal : (i : ℕ) → i < 2 ^ 31 → starting_index (decimal i) ≡ some (pos i)
unfolding starting_index
starting_index-decimal i h =
    let parsed = parse_uint32-decimal i (omega arith) in
    let same = int32_self i h in let token = decimal-nonempty i in ground arith

-- A page and those that follow it, if the page has an end within the list.
page-split : (xs : List SnapshotInfo) (i k : ℕ) → take k (drop i xs) ++ drop (i + k) xs ≡ drop i xs
page-split xs i k =
    ap (λ ys. take k (drop i xs) ++ ys) (sym (drop-drop k i xs)) ∙ take-append-drop k (drop i xs)

page_size-pos : (rest m : ℕ) → page_size rest m < rest → 1 ≤ page_size rest m
page_size-pos rest zero h = absurd (omega arith)
page_size-pos rest (suc m) h = ground arith

page_size-le : (rest m : ℕ) → page_size rest m ≤ rest
page_size-le rest zero = omega arith
page_size-le rest (suc m) = ground arith

joined-last :
    (xs : List SnapshotInfo) (i k : ℕ) (later : Option (List SnapshotInfo))
    → length xs ≤ i + k
    → joined (page_at xs i k) later ≡ some (drop i xs)
unfolding joined
joined-last xs i k none h =
    let rest = length-drop i xs in let all = take_all k (drop i xs) (omega arith) in ground arith
joined-last xs i k (some later) h =
    let rest = length-drop i xs in let all = take_all k (drop i xs) (omega arith) in ground arith

joined-more :
    (xs : List SnapshotInfo) (i k : ℕ)
    → i + k < length xs
    → joined (page_at xs i k) (some (drop (i + k) xs)) ≡ some (drop i xs)
unfolding joined
joined-more xs i k h =
    let token = decimal-nonempty (i + k) in let split = page-split xs i k in ground arith

-- The page of a token that is the number of an entry.
list_all-page :
    (snapshots : List Snapshot) (i m : ℕ) (token : String)
    → starting_index token ≡ some (pos i)
    → i ≤ length snapshots
    → length snapshots < 2 ^ 31
    → let xs = map listed_info (sort snapshot_key snapshots) in
      list_all snapshots (record {
        snapshot_id = "";
        source_volume_id = "";
        starting_token = token;
        max_entries = pos m;
      })
      ≡ ok (page_at xs i (page_size (length xs - i) m))
unfolding list_all
list_all-page snapshots i m token h low few =
    let xs = map listed_info (sort snapshot_key snapshots) in
    let n : length xs ≡ length snapshots =
      length-map listed_info (sort snapshot_key snapshots) ∙ length-sort snapshot_key snapshots in
    rw (list_all, h) (list_from-page_at xs i m (omega arith) (omega arith))

page-token :
    (xs : List SnapshotInfo) (i k : ℕ)
    → i + k < length xs
    → page_at xs i k ≡ record { entries = take k (drop i xs); next_token = decimal (i + k) }
page-token xs i k h = ground arith

follow-drop :
    (pages : ℕ) (snapshots : List Snapshot) (i m : ℕ) (token : String)
    → starting_index token ≡ some (pos i)
    → i ≤ length snapshots
    → length snapshots - i < pages
    → length snapshots < 2 ^ 31
    → follow pages snapshots (pos m) token
      ≡ some (drop i (map listed_info (sort snapshot_key snapshots)))
unfolding follow after_page
follow-drop zero snapshots i m token h low enough few = absurd (omega arith)
follow-drop (suc pages) snapshots i m token h low enough few =
    let xs = map listed_info (sort snapshot_key snapshots) in
    let n : length xs ≡ length snapshots =
      length-map listed_info (sort snapshot_key snapshots) ∙ length-sort snapshot_key snapshots in
    let k = page_size (length xs - i) m in
    let page = page_at xs i k in
    let next = follow pages snapshots (pos m) in
    let small = page_size-le (length xs - i) m in
    ap (after_page next) (list_all-page snapshots i m token h low few)
    ∙ elim (Bool-cases (ltb (i + k) (length xs))) [
      | inl e ↦
          let inside : i + k < length xs = ground arith in
          let some_entries = page_size-pos (length xs - i) m (omega arith) in
          let tail =
            follow-drop pages snapshots (i + k) m (decimal (i + k))
              (starting_index-decimal (i + k) (omega arith)) (omega arith) (omega arith) few in
          ap (joined page) (
            ap (λ (r : ListSnapshotsResponse). next r.next_token) (page-token xs i k inside) ∙ tail)
          ∙ joined-more xs i k inside
      | inr e ↦ joined-last xs i k (next page.next_token) (ground arith)
    ]

-- Of fewer than 2³¹ snapshots, a client that follows the tokens of ListSnapshots from the empty
-- one on, for any maximum number of entries that is not negative and while the state stays as it
-- is, comes to an end after at most one call more than there are snapshots, with all snapshots in
-- the order of their IDs.
pub follow-all :
    (snapshots : List Snapshot) (m : ℕ)
    → length snapshots < 2 ^ 31
    → follow (length snapshots + 1) snapshots (pos m) ""
      ≡ some (map listed_info (sort snapshot_key snapshots))
unfolding starting_index String-discrete
follow-all snapshots m few =
    follow-drop (length snapshots + 1) snapshots 0 m "" refl (omega arith) (omega arith) few
