-- ===== src/Tests/Quotas.antt =====
-- The quotaer, on concrete inputs.
use csi.Prelude.{
  ℕ, ◌^◌, ◌≤◌, ◌<◌, ◌≡◌, refl, none, some, List, [], ◌∷◌, inr, String-discrete, arith, length,
}
use csi.Prelude.Split.{is_solid, is_space, lacks}
use csi.Exec.{ok}
use csi.State.Table.{find, upsert}
use csi.Prelude.Int.{pos}
use csi.Xfs.Units.{larger_units, convert_bytes_to_string}
use csi.Xfs.Units.Bounds.{Written, convert_bytes_to_string-Written}
use csi.Xfs.Ids.{in_use, generate_id, IsFresh}
use csi.Xfs.Projects.{Project, directory_key, ids_of, to_text, existing_ids}
use csi.Xfs.Projects.RoundTrip.{IsPlain, existing_ids-to_text}
use csi.Xfs.Quotaer.{System, Quotas, add_project, add_with, update_quota, dump}
use csi.Xfs.Quotaer.Invariant.{IsValid}
use csi.Xfs.Quotaer.Added.{Outcome, add_project-Outcome}
use csi.Xfs.Quotaer.Saved.{Saved, update_quota-Saved}
use csi.Xfs.Quotaer.Calls.{Call, add, update, run_calls, run_calls-IsValid, run_calls-returns}
use csi.Tests.{World, write_file, read_file}

-- A host whose calls all succeed.
abbrev system : System World
system = record {
  xfs_path = "/csi";
  projects_file = "/csi/projects";
  clean_path = "/csi";
  stat = λ path w. (none, w);
  run = λ command w. (none, w);
  output = λ command w. (inr "xfs", w);
  get_mounts =
      λ w. (inr (record { mountpoint = "/csi"; fstype = "xfs"; vfs_opts = "rw,pquota" } ∷ []), w);
  look_path = λ name w. (none, w);
  create_file = λ path w. (none, some "");
  read_file = read_file;
  write_file = write_file;
  range = λ projects w. (projects, w);
}

abbrev first : Project
first = record { directory = "/csi/v1"; id = 1; bhard = "1K" }

abbrev second : Project
second = record { directory = "/csi/v2"; id = 2; bhard = "2K" }

abbrev one_project : Quotas World
one_project = record { directories = first ∷ []; world = none }

one_project-IsValid : IsValid (first ∷ [])
unfolding in_use ids_of find
one_project-IsValid = record {
  directories = (refl, tt);
  ids = (refl, tt);
  good = ((omega arith, λ e. ground arith), tt);
}

abbrev calls : List Call
calls = add "/csi/v2" "2K" ∷ update "/csi/v1" "5K" ∷ []

run_calls-returns_example :
    (t : Quotas World) × (run_calls system calls one_project ≡ some t) × (length t.directories ≤ 3)
run_calls-returns_example = run_calls-returns system calls one_project (omega arith)

abbrev after_add : Quotas World
after_add = (add_with system 2 "/csi/v2" "2K" one_project).1

added :
    add_project system "/csi/v2" "2K" one_project
    ≡ some (add_with system 2 "/csi/v2" "2K" one_project)
unfolding add_project generate_id in_use ids_of
added = refl

abbrev after_calls : Quotas World
after_calls = (update_quota system "/csi/v1" "5K" after_add).1

ran : run_calls system calls one_project ≡ some after_calls
unfolding run_calls add_project generate_id in_use ids_of
ran = refl

run_calls-IsValid_example : IsValid after_calls.directories
run_calls-IsValid_example =
    run_calls-IsValid system calls one_project after_calls one_project-IsValid ran

add_project-Outcome_example :
    (i : ℕ) × (i < 2 ^ 16)
    × IsFresh i (ids_of (first ∷ []))
    × Outcome system
        (record { directory = "/csi/v2"; id = i; bhard = "2K" })
        (none, one_project.world)
        (first ∷ [])
        (add_with system 2 "/csi/v2" "2K" one_project).0
        after_add
add_project-Outcome_example =
    add_project-Outcome system "/csi/v2" "2K" one_project after_add
      (add_with system 2 "/csi/v2" "2K" one_project).0 added

updated :
    update_quota system "/csi/v1" "5K" one_project
    ≡ (ok tt, (update_quota system "/csi/v1" "5K" one_project).1)
unfolding update_quota find String-discrete dump
updated = refl

update_quota-Saved_example :
    let t = (update_quota system "/csi/v1" "5K" one_project).1 in
    (p : Project) × (find directory_key "/csi/v1" (first ∷ []) ≡ some p)
    × (t.directories ≡ upsert directory_key (record p { bhard = "5K" }) (first ∷ []))
    × Saved system t
update_quota-Saved_example =
    update_quota-Saved system "/csi/v1" "5K" one_project
      (update_quota system "/csi/v1" "5K" one_project).1 updated

first-IsPlain : IsPlain first
unfolding is_solid is_space lacks
first-IsPlain = record {
  id = omega arith;
  directory_solid = refl;
  directory_lacks = refl;
  bhard_solid = refl;
  bhard_lacks = refl;
}

second-IsPlain : IsPlain second
unfolding is_solid is_space lacks
second-IsPlain = record {
  id = omega arith;
  directory_solid = refl;
  directory_lacks = refl;
  bhard_solid = refl;
  bhard_lacks = refl;
}

two-Distinct : find directory_key "/csi/v1" (second ∷ []) ≡ none
unfolding find String-discrete
two-Distinct = refl

existing_ids-to_text_example :
    existing_ids system.stat (to_text (first ∷ second ∷ [])) none
    ≡ (record first { id = 0 } ∷ second ∷ [], none)
unfolding find
existing_ids-to_text_example =
    existing_ids-to_text system.stat first (second ∷ []) none (λ d v. refl)
      (first-IsPlain, (second-IsPlain, tt)) (two-Distinct, (refl, tt))

convert_bytes_to_string-Written_example :
    Written ("B" ∷ larger_units) 1610612736 (convert_bytes_to_string (pos 1610612736))
convert_bytes_to_string-Written_example = convert_bytes_to_string-Written 1610612736 (omega arith)
