-- ===== src/Handshake/Setup.antt =====
-- cmd_shex.c: all that the host says of a child, as a list.
use fb_adb.Prelude.{
  ◌≡◌, refl, ap, sym, ◌∙◌, Option, none, some, List, [], ◌∷◌, ◌++◌, append_assoc, Bytes, All,
}
use fb_adb.Handshake.Host.{ArgValue, EnvironOp, first_argument}
use fb_adb.Handshake.Item.{Item, arg, set_var, unset_var, clear_vars, chdir, item_wire, FitsItem}
use fb_adb.Handshake.Items.{items_wire}

-- What the host asks for, in the order in which it says it.
abbrev pub op_item : Option Bytes → Option Bytes → Item
op_item (some name) (some value) = set_var name value
op_item (some name) none = unset_var name
op_item none value = clear_vars

abbrev pub op_items : List EnvironOp → List Item
op_items [] = []
op_items (eop ∷ ops) = op_item eop.name eop.value ∷ op_items ops

abbrev pub arg_items : List ArgValue → List Item
arg_items [] = []
arg_items (v ∷ argv) = arg v ∷ arg_items argv

abbrev pub dir_items : Option Bytes → List Item
dir_items none = []
dir_items (some dir) = chdir dir ∷ []

abbrev pub setup_items :
    Option Bytes → List EnvironOp → Option ArgValue → ArgValue → List ArgValue → List Item
setup_items dir ops exename command argv =
    dir_items dir
    ++ (op_items ops ++ (arg (first_argument exename command) ∷ arg command ∷ arg_items argv))

pub items_wire-append : (xs ys : List Item) → items_wire (xs ++ ys) ≡ items_wire xs ++ items_wire ys
items_wire-append [] ys = refl
items_wire-append (x ∷ xs) ys =
    ap (λ w. item_wire x ++ w) (items_wire-append xs ys)
    ∙ sym (append_assoc (item_wire x) (items_wire xs) (items_wire ys))

pub FitsItem-left : (xs ys : List Item) → All FitsItem (xs ++ ys) → All FitsItem xs
FitsItem-left [] ys h = tt
FitsItem-left (x ∷ xs) ys (p, h) = (p, FitsItem-left xs ys h)

pub FitsItem-right : (xs ys : List Item) → All FitsItem (xs ++ ys) → All FitsItem ys
FitsItem-right [] ys h = h
FitsItem-right (x ∷ xs) ys (p, h) = FitsItem-right xs ys h
