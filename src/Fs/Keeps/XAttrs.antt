-- ===== src/Fs/Keeps/XAttrs.antt =====
-- The handlers for extended attributes keep what the interface keeps.
use pagealignfs.Prelude.{ℕ}
use pagealignfs.Prelude.Bytes.{Text}
use pagealignfs.World.{World}
use pagealignfs.Effect.Keeps.{Keeps}
use pagealignfs.Syscalls.Keeps.Tree.{tree_keeps}
use pagealignfs.Fs.Keeps.{StateKeeps, resource_keeps}
use pagealignfs.Fs.XAttrs.{set_x_attr, get_x_attr, list_x_attr, remove_x_attr}

module _ {P : World → Type 0} (k : StateKeeps P) where
  pub set_x_attr-Keeps :
      (ino : ℕ) (name : Text) (value : Text) (flags : ℕ) → Keeps P (set_x_attr ino name value flags)
  unfolding set_x_attr
  set_x_attr-Keeps ino name value flags =
      search (resource_keeps, tree_keeps, k.calls, k.at_send) depth 12

  pub get_x_attr-Keeps : (ino : ℕ) (name : Text) (size : ℕ) → Keeps P (get_x_attr ino name size)
  unfolding get_x_attr
  get_x_attr-Keeps ino name size = search (resource_keeps, tree_keeps, k.calls, k.at_send) depth 12

  pub list_x_attr-Keeps : (ino : ℕ) (size : ℕ) → Keeps P (list_x_attr ino size)
  unfolding list_x_attr
  list_x_attr-Keeps ino size = search (resource_keeps, tree_keeps, k.calls, k.at_send) depth 12

  pub remove_x_attr-Keeps : (ino : ℕ) (name : Text) → Keeps P (remove_x_attr ino name)
  unfolding remove_x_attr
  remove_x_attr-Keeps ino name = search (resource_keeps, tree_keeps, k.calls, k.at_send) depth 12

pub ruleset x_attr_keeps =
    (set_x_attr-Keeps, get_x_attr-Keeps, list_x_attr-Keeps, remove_x_attr-Keeps)
