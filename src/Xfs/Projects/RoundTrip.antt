-- ===== src/Xfs/Projects/RoundTrip.antt =====
-- What `getExistingIDs` of pkg/xfs/utils.go reads from what `Directories.String` of pkg/xfs/quotaer.go wrote.
use Prim.Native.Char.{Char, code, nul}
use text.Mathlib.TextLemmas.{cons-append, append_assoc as text-append_assoc}
use mathlib.Core.List.{append_assoc, append-nil}
use csi.Prelude.{
  ℕ, zero, suc, ◌^◌, ◌<◌, String, ◌<>◌, ◌≡◌, refl, sym, ap, ◌∙◌, subst, true, Option, none, some,
  List, [], ◌∷◌, ◌++◌, ◌==◌, String-discrete, All, arith, Bool-cases, inl, inr,
}
use csi.Prelude.Decimal.{decimal}
use csi.Prelude.Cut.{one-append}
use csi.Prelude.Split.{
  split, trim_space, lacks, is_solid, is_space, split-lacks, split-append, trim_space_solid,
  is_solid-append, lacks-append, lacks-of_is_solid,
}
use csi.Prelude.Uint16.{parse_uint16, parse_uint16-decimal, decimal-is_solid, decimal-lacks}
use csi.Exec.{OsError}
use csi.State.Table.{find, upsert, Distinct, find-upsert}
use csi.Xfs.Projects.{
  Project, directory_key, nuls, line_of, lines_of, to_text, project_of, parse_line, keep, add_line,
  load_lines, existing_ids,
}

-- A project whose fields survive in a line: the number is a uint16, and the two texts have no white space and
-- no colon.
pub record IsPlain (p : Project) : Type 0 where
  pub id : p.id < 2 ^ 16
  pub directory_solid : is_solid p.directory ≡ true
  pub directory_lacks : lacks b':' p.directory ≡ true
  pub bhard_solid : is_solid p.bhard ≡ true
  pub bhard_lacks : lacks b':' p.bhard ≡ true

split_at :
    (sep : ℕ) (c : Char) (s t : String)
    → code c ≡ sep
    → lacks sep s ≡ true
    → split sep (s <> ((String.◌∷◌ c String.[]) <> t)) ≡ s ∷ split sep t
split_at sep c s t e h = ap (λ r. split sep (s <> r)) (one-append c t) ∙ split-append sep c s t e h

fields :
    (a d b : String)
    → lacks b':' a ≡ true
    → lacks b':' d ≡ true
    → lacks b':' b ≡ true
    → split b':' (a <> (":" <> (d <> (":" <> b)))) ≡ a ∷ d ∷ b ∷ []
fields a d b ha hd hb =
    split_at b':' ":" a (d <> (":" <> b)) refl ha
    ∙ ap (λ r. a ∷ r) (split_at b':' ":" d b refl hd ∙ ap (λ r. d ∷ r) (split-lacks b':' b hb))

parse_line-fields : (line : String) → parse_line line ≡ project_of (split b':' line)
unfolding parse_line project_of split String-discrete
parse_line-fields line = elim (Bool-cases (line == "")) [
  | inl e ↦
      let same : line ≡ "" = ground arith in
      subst (λ l. parse_line l ≡ project_of (split b':' l)) (sym same) refl
  | inr e ↦ rw e refl
]

parse_uint16-nul : (s : String) → parse_uint16 (String.◌∷◌ nul s) ≡ 0
unfolding parse_uint16
parse_uint16-nul s = refl

-- A text before the number, such as the zero bytes of the buffer.
abbrev line_after : String → Project → String
line_after number p = number <> (":" <> (p.directory <> (":" <> p.bhard)))

line_after-is_solid :
    (number : String) (p : Project)
    → IsPlain p
    → is_solid number ≡ true
    → is_solid (line_after number p) ≡ true
unfolding is_solid is_space
line_after-is_solid number p plain h =
    is_solid-append number (":" <> (p.directory <> (":" <> p.bhard))) h (
      is_solid-append ":" (p.directory <> (":" <> p.bhard)) refl (
        is_solid-append p.directory (":" <> p.bhard) plain.directory_solid
          (is_solid-append ":" p.bhard refl plain.bhard_solid)))

parse_line-line_after :
    (number : String) (p : Project)
    → IsPlain p
    → lacks b':' number ≡ true
    → parse_line (line_after number p) ≡ some (record p { id = parse_uint16 number })
unfolding project_of
parse_line-line_after number p plain h =
    parse_line-fields (line_after number p)
    ∙ ap project_of (fields number p.directory p.bhard h plain.directory_lacks plain.bhard_lacks)

-- None of the second projects is of a directory of the first ones.
NewTo : List Project → List Project → Type 0
NewTo acc qs = All (λ q. find directory_key q.directory acc ≡ none) qs

NewTo-upsert :
    (q : Project) (acc qs : List Project)
    → find directory_key q.directory qs ≡ none
    → NewTo acc qs
    → NewTo (upsert directory_key q acc) qs
unfolding find NewTo
NewTo-upsert q acc [] h n = tt
NewTo-upsert q acc (r ∷ qs) h (fresh, n) = (
  ground (arith, find-upsert directory_key r.directory q acc),
  NewTo-upsert q acc qs (ground arith) n,
)

upsert_new :
    (q : Project) (acc : List Project)
    → find directory_key q.directory acc ≡ none
    → upsert directory_key q acc ≡ acc ++ (q ∷ [])
unfolding find upsert
upsert_new q [] h = refl
upsert_new q (x ∷ acc) h = ground (arith, upsert_new q acc)

module _ {W : Type 0} (stat : String → W → Option OsError × W)
    (found : (d : String) (w : W) → stat d w ≡ (none, w)) where
  load_lines-line :
      (number rest : String) (p : Project) (ps : List Project) (w : W)
      → IsPlain p
      → is_solid number ≡ true
      → lacks b':' number ≡ true
      → load_lines stat (split b'\n' (line_after number p <> ("\n" <> rest))) ps w
        ≡ load_lines stat
            (split b'\n' rest)
            (upsert directory_key (record p { id = parse_uint16 number }) ps)
            w
  unfolding load_lines add_line keep is_space
  load_lines-line number rest p ps w plain solid no_colon =
      let solid' = line_after-is_solid number p plain solid in
      let cut =
        split_at b'\n' "\n" (line_after number p) rest refl
          (lacks-of_is_solid b'\n' (line_after number p) refl solid') in
      let line = line_after number p in
      let read =
        ap parse_line (trim_space_solid line solid')
        ∙ parse_line-line_after number p plain no_colon in
      let q : Project = record p { id = parse_uint16 number } in
      let later : List Project × W → List Project × W =
        λ x. load_lines stat (split b'\n' rest) x.0 x.1 in
      ap (λ lines. load_lines stat lines ps w) cut
      ∙ ap (λ o. later (add_line stat o ps w)) read
      ∙ ap (λ x. later (keep stat q ps x)) (found p.directory w)

  load_lines-lines_of :
      (qs acc : List Project) (w : W)
      → All IsPlain qs
      → Distinct directory_key qs
      → NewTo acc qs
      → load_lines stat (split b'\n' (lines_of qs)) acc w ≡ (acc ++ qs, w)
  unfolding lines_of line_of NewTo load_lines add_line parse_line String-discrete split trim_space
  load_lines-lines_of [] acc w plain d n = ap (λ ps. (ps, w)) (sym (append-nil acc))
  load_lines-lines_of (q ∷ qs) acc w (plain, plains) (fresh, d) (new, n) =
      let same = ap (λ i. record q { id = i }) (parse_uint16-decimal q.id plain.id) in
      load_lines-line (decimal q.id) (lines_of qs) q acc w plain (decimal-is_solid q.id)
        (decimal-lacks q.id)
      ∙ ap (λ u. load_lines stat (split b'\n' (lines_of qs)) (upsert directory_key u acc) w) same
      ∙ load_lines-lines_of qs (upsert directory_key q acc) w plains d
          (NewTo-upsert q acc qs fresh n)
      ∙ ap (λ ps. (ps, w))
          (ap (λ ps. ps ++ qs) (upsert_new q acc new) ∙ append_assoc acc (q ∷ []) qs)

nuls-is_solid : (n : ℕ) → is_solid (nuls n) ≡ true
unfolding nuls is_solid is_space
nuls-is_solid zero = refl
nuls-is_solid (suc n) = ground (arith, nuls-is_solid n)

nuls-lacks : (n : ℕ) → lacks b':' (nuls n) ≡ true
unfolding nuls lacks
nuls-lacks zero = refl
nuls-lacks (suc n) = ground (arith, nuls-lacks n)

line_of-shift :
    (start rest : String) (p : Project)
    → start <> (line_of p <> rest) ≡ line_after (start <> decimal p.id) p <> rest
unfolding line_of
line_of-shift start rest p =
    let fields = ":" <> (p.directory <> (":" <> p.bhard)) in
    sym (text-append_assoc start (decimal p.id <> fields) rest)
    ∙ ap (λ line. line <> rest) (sym (text-append_assoc start (decimal p.id) fields))

parse_uint16-nuls : (n : ℕ) (s : String) → parse_uint16 (nuls (suc n) <> s) ≡ 0
unfolding nuls
parse_uint16-nuls n s =
    ap parse_uint16 (cons-append nul (nuls n) s) ∙ parse_uint16-nul (nuls n <> s)

-- The directory of the first project is not among the others.
NewTo-first :
    (p : Project) (ps : List Project) → find directory_key p.directory ps ≡ none → NewTo (p ∷ []) ps
unfolding NewTo find
NewTo-first p [] h = tt
NewTo-first p (q ∷ ps) h = (ground arith, NewTo-first p ps (ground arith))

-- Of projects with different directories, with IDs that are uint16 and with fields that have no
-- white space and no colon, getExistingIDs reads from the text that String wrote, where every
-- os.Stat succeeds and changes nothing, every project as it was but the first one, whose ID is
-- read as 0: the zero bytes of the buffer stand before the first number.
pub existing_ids-to_text :
    {W : Type 0} (stat : String → W → Option OsError × W) (p : Project) (ps : List Project) (w : W)
    → ((d : String) (v : W) → stat d v ≡ (none, v))
    → All IsPlain (p ∷ ps)
    → Distinct directory_key (p ∷ ps)
    → existing_ids stat (to_text (p ∷ ps)) w ≡ (record p { id = 0 } ∷ ps, w)
unfolding existing_ids to_text lines_of upsert
existing_ids-to_text stat p ps w found (plain, plains) (fresh, d) =
    let number = nuls 1000 <> decimal p.id in
    let solid =
      is_solid-append (nuls 1000) (decimal p.id) (nuls-is_solid 1000) (decimal-is_solid p.id) in
    let no_colon =
      lacks-append b':' (nuls 1000) (decimal p.id) (nuls-lacks 1000) (decimal-lacks p.id) in
    ap (λ text. load_lines stat (split b'\n' text) [] w)
      (line_of-shift (nuls 1000) ("\n" <> lines_of ps) p)
    ∙ load_lines-line stat found number (lines_of ps) p [] w plain solid no_colon
    ∙ ap (λ i. load_lines stat (split b'\n' (lines_of ps)) (record p { id = i } ∷ []) w)
        (parse_uint16-nuls 999 (decimal p.id))
    ∙ load_lines-lines_of stat found ps (record p { id = 0 } ∷ []) w plains d
        (NewTo-first (record p { id = 0 }) ps fresh)
