-- ===== src/Downmix/Files/Disk.antt =====
-- How the operations on the files change the disk.
use collapsarr.Common.{
  ◌≡◌, ◌≢◌, inl, inr, refl, sym, ◌∙◌, subst, false, Bool-cases, none, Str, str_eq, str_eq_iff,
  str_eq_refl, arith, ℕ,
}
use collapsarr.Downmix.Files.{Files, remove_if_exists, write_file, rename_file}

-- Two disks that differ at most at one path.
abbrev pub SameBut : Str → Files → Files → Type 0
SameBut path before after = (p : Str) → path ≢ p → after p ≡ before p

abbrev pub Same : Files → Files → Type 0
Same before after = (p : Str) → after p ≡ before p

-- The temp file is gone, and nothing else differs.
pub record IsDiscarded (temp : Str) (before after : Files) : Type 0 where
  pub gone : after temp ≡ none
  pub others : SameBut temp before after

-- The content of the temp file stands at the original path, and nothing else differs.
pub record IsSwapped (original temp : Str) (before after : Files) : Type 0 where
  pub replaced : after original ≡ before temp
  pub moved : temp ≢ original → after temp ≡ none
  pub others : (p : Str) → original ≢ p → temp ≢ p → after p ≡ before p

str_eq_apart : (s t : Str) → s ≢ t → str_eq s t ≡ false
str_eq_apart s t apart = elim (Bool-cases (str_eq s t)) [
  | inl same ↦ absurd (apart ((str_eq_iff s t).0 same))
  | inr differs ↦ differs
]

remove-SameBut : (temp : Str) (files : Files) → SameBut temp files (remove_if_exists temp files)
unfolding remove_if_exists
remove-SameBut temp files p other = elim (Bool-cases (str_eq temp p)) [
  | inl same ↦ absurd (other ((str_eq_iff temp p).0 same))
  | inr differs ↦ rw differs refl
]

pub write-SameBut :
    (temp : Str) (content : ℕ) (files : Files) → SameBut temp files (write_file temp content files)
unfolding write_file
write-SameBut temp content files p other = elim (Bool-cases (str_eq temp p)) [
  | inl same ↦ absurd (other ((str_eq_iff temp p).0 same))
  | inr differs ↦ rw differs refl
]

-- A temp file that was not there before is gone once it is removed.
pub remove-Same :
    (temp : Str) (before after : Files)
    → before temp ≡ none
    → SameBut temp before after
    → Same before (remove_if_exists temp after)
unfolding remove_if_exists
remove-Same temp before after new same p = elim (Bool-cases (str_eq temp p)) [
  | inl here ↦ rw here (sym (subst (λ q. before q ≡ none) ((str_eq_iff temp p).0 here) new))
  | inr differs ↦
      let apart : temp ≢ p = λ e. ground (arith, str_eq_iff temp p) in rw differs (same p apart)
]

pub remove-IsDiscarded :
    (temp : Str) (before after : Files)
    → Same before after
    → IsDiscarded temp before (remove_if_exists temp after)
unfolding remove_if_exists
remove-IsDiscarded temp before after same = record {
  gone = rw (str_eq_refl temp) refl;
  others = λ p apart. remove-SameBut temp after p apart ∙ same p;
}

pub rename-IsSwapped :
    (original temp : Str) (before after : Files)
    → Same before after
    → IsSwapped original temp before (rename_file temp original after)
unfolding rename_file
rename-IsSwapped original temp before after same = record {
  replaced = rw (str_eq_refl original) (same temp);
  moved = λ apart. rw (str_eq_apart original temp (λ e. apart (sym e)), str_eq_refl temp) refl;
  others = λ p away apart. rw (str_eq_apart original p away, str_eq_apart temp p apart) (same p);
}

-- A temp file that was not there at first comes and goes.
pub discard-Same :
    (temp : Str) (before disk after : Files)
    → before temp ≡ none
    → SameBut temp before disk
    → IsDiscarded temp disk after
    → Same before after
discard-Same temp before disk after new same h p = elim (Bool-cases (str_eq temp p)) [
  | inl here ↦
      let at : temp ≡ p = (str_eq_iff temp p).0 here in
      subst (λ q. after q ≡ before q) at (h.gone ∙ sym new)
  | inr differs ↦
      let apart : temp ≢ p = λ e. ground (arith, str_eq_iff temp p) in
      h.others p apart ∙ same p apart
]

-- A temp file that was not there at first is moved to the path.
pub swap-SameBut :
    (path temp : Str) (before disk after : Files)
    → before temp ≡ none
    → SameBut temp before disk
    → IsSwapped path temp disk after
    → SameBut path before after
swap-SameBut path temp before disk after new same h p away = elim (Bool-cases (str_eq temp p)) [
  | inl here ↦
      let at : temp ≡ p = (str_eq_iff temp p).0 here in
      subst (λ q. after q ≡ before q) at (h.moved (λ e. away (sym e ∙ at)) ∙ sym new)
  | inr differs ↦
      let apart : temp ≢ p = λ e. ground (arith, str_eq_iff temp p) in
      h.others p away apart ∙ same p apart
]
