-- ===== src/Widgets/Nodes/Examples.antt =====
-- A node on a long host, in a narrow panel.
use chaindash.Base.{
  any, all, Text, codes, ℕ, ◌+◌, ◌-◌, ◌*◌, ◌/◌, ◌≡◌, refl, false, List, [], ◌∷◌, ◌++◌, arith,
}
use chaindash.Data.NodeStates.{ConsensusState}
use chaindash.Widgets.Countries.{Rect}
use chaindash.Widgets.Helpers.Priority.{PriorityLine, select_prioritized_lines}
use chaindash.Widgets.Helpers.Cuts.{Shortened}
use chaindash.Widgets.Lines.{Panels, KeepsHeight, DrawsLine}
use chaindash.Widgets.Nodes.{shorten_host_for_width}
use chaindash.Widgets.Nodes.Hosts.{shorten_host_for_width-Shortened}
use chaindash.Widgets.Nodes.Ports.{shorten_host_for_width-port}
use chaindash.Opts.Number.{is_digit}
use chaindash.Widgets.Nodes.Specs.{name_line}
use chaindash.Widgets.Nodes.Drawing.{render}
use chaindash.Widgets.Nodes.Named.{render-name}

-- Four lines with priorities, and two rows.
abbrev four_lines : List (PriorityLine ℕ)
four_lines = (2, 10) ∷ (9, 11) ∷ (1, 12) ∷ (2, 13) ∷ []

two_rows : select_prioritized_lines four_lines 2 ≡ 10 ∷ 12 ∷ []
unfolding select_prioritized_lines any
two_rows = refl

abbrev long_host : Text
long_host = codes "validator.example.internal:6790"

cut_before_port : shorten_host_for_width long_host 20 ≡ codes "validator.exam…:6790"
unfolding shorten_host_for_width
cut_before_port = refl

shorten_host_for_width-Shortened_example :
    Shortened long_host (shorten_host_for_width long_host 20) 20
shorten_host_for_width-Shortened_example =
    shorten_host_for_width-Shortened long_host 20 (omega arith)

shorten_host_for_width-port_example :
    (shown : Text) × (shorten_host_for_width
        (codes "validator.example.internal" ++ b':' ∷ codes "6790")
        12
      ≡ shown ++ b':' ∷ codes "6790")
shorten_host_for_width-port_example =
    shorten_host_for_width-port (codes "validator.example.internal") (codes "6790") 12 (omega arith)
      (omega arith) (unfold all is_digit in refl) (omega arith)

abbrev node : ConsensusState
node = record {
  name = codes "Satyrs";
  host = long_host;
  current_number = 145333141;
  epoch = 337985;
  view = 2;
  committed = 145333141;
  locked = 145333142;
  qc = 145333143;
  validator = false;
}

-- A border of one cell, and columns that share the width.
abbrev share : ℕ → Rect → Rect
share percent r = record r { width = r.width * percent / 100 }

abbrev panels : Panels
panels = record {
  inner = λ r. record { x = r.x + 1; y = r.y + 1; width = r.width - 2; height = r.height - 2 };
  two_columns = λ a b r. (share a r, share b r);
  three_columns = λ a b c r. (share a r, share b r, share c r);
}

panels-KeepsHeight : KeepsHeight panels
panels-KeepsHeight = record { two = λ a b r. (refl, refl); three = λ a b c r. (refl, refl, refl) }

abbrev narrow : Rect
narrow = record { x = 0; y = 10; width = 40; height = 3 }

render-name_example : DrawsLine (name_line node) (render panels (node ∷ []) narrow)
render-name_example = render-name panels panels-KeepsHeight node narrow (omega arith) refl
