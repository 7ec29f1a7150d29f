-- ===== src/Attachments/Names.antt =====
-- The search for a free file name ends: `resolveFilePath` of internal/handlers/attachments.go.
use mathlib.Core.Path.{◌∙◌}
use fmsg_webapi.Prelude.{
  ℕ, ◌≤◌, ◌<◌, ◌≡◌, ◌∙◌, true, false, Option, some, ◌++◌, Bool-cases, nat_eq, Text, codes, text_eq,
  Bool-cases,
}
use fmsg_webapi.Strings.{contains_byte}
use fmsg_webapi.Attachments.{AttachmentSite, trim_suffix, candidate}

-- A file name: no separator is in it, and it is not a dot or two, since it has an underscore.
abbrev pub IsLeaf : Text → Type 0
IsLeaf name = (contains_byte b'/' name ≡ false) × (contains_byte b'_' name ≡ true)

-- What the search relies on: filepath.Join keeps file names in a directory apart, %d writes numbers
-- apart and without a separator, and filepath.Ext gives a part of a file name.
pub record TellsApart (st : AttachmentSite) (dir name : Text) : Type 0 where
  pub join_apart : (x y : Text) → IsLeaf x → IsLeaf y → st.join dir x ≡ st.join dir y → x ≡ y
  pub decimal_apart : (m n : ℕ) → st.decimal m ≡ st.decimal n → m ≡ n
  pub decimal_leaf : (n : ℕ) → contains_byte b'/' (st.decimal n) ≡ false
  pub ext_leaf : contains_byte b'/' (st.ext name) ≡ false
  pub name_leaf : contains_byte b'/' name ≡ false

module _ (st : AttachmentSite) (dir name : Text) (t : TellsApart st dir name) where
  abbrev stem : Text
  stem = trim_suffix name (st.ext name)

  abbrev leaf : ℕ → Text
  leaf i = stem ++ codes "_" ++ st.decimal i ++ st.ext name

  -- A free path, and everything before it taken.
  pub record IsFree (i : ℕ) (o : Option Text) : Type 0 where
    pub index : ℕ
    pub path : o ≡ some (candidate st dir name index)
    pub free : st.exists (candidate st dir name index) ≡ false
    pub first : (n : ℕ) → i ≤ n → n < index → st.exists (candidate st dir name n) ≡ true
