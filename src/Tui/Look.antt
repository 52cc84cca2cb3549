-- ===== src/Tui/Look.antt =====
-- internal/tui/theme.go and RenderModal of internal/tui/modals.go: themes, the styles that are made of
-- them, and the modal. The library that draws a style is a parameter; a text is its code points.
use aegis_pulse.Base.{Bool, true, List, [], ◌∷◌, ◌++◌, String, if◌then◌else◌, ℤ, pos, Text, codes}
use aegis_pulse.Tui.Modal.{ModalState}

pub data Border : Type 0 where
  rounded thick double : Border

-- What is used of lipgloss: a style is built by its methods, and renders a text.
pub record Lipgloss (Style : Type 0) : Type 0 where
  pub new_style : Style
  pub bold : Bool → Style → Style
  pub foreground : String → Style → Style
  pub background : String → Style → Style
  pub padding : ℤ → ℤ → Style → Style
  pub border : Border → Style → Style
  pub border_foreground : String → Style → Style
  pub width : ℤ → Style → Style
  pub render : Style → Text → Text
  -- in the middle of an area of some width and height
  pub place : ℤ → ℤ → Text → Text
  pub join_horizontal : List Text → Text
  pub join_vertical : List Text → Text

pub record Theme : Type 0 where
  pub name : String
  pub primary : String
  pub secondary : String
  pub accent : String
  pub success : String
  pub warning : String
  pub error : String
  pub background : String
  pub foreground : String

abbrev pub dracula : Theme
dracula = record {
  name = "Dracula";
  primary = "#BD93F9";
  secondary = "#FF79C6";
  accent = "#8BE9FD";
  success = "#50FA7B";
  warning = "#FFB86C";
  error = "#FF5555";
  background = "#282A36";
  foreground = "#F8F8F2";
}

abbrev pub catppuccin_mocha : Theme
catppuccin_mocha = record {
  name = "Catppuccin Mocha";
  primary = "#CBA6F7";
  secondary = "#B4BEFE";
  accent = "#89DCEB";
  success = "#A6E3A1";
  warning = "#FAB387";
  error = "#F38BA8";
  background = "#1E1E2E";
  foreground = "#CDD6F4";
}

abbrev pub matrix_cyberpunk : Theme
matrix_cyberpunk = record {
  name = "Matrix Cyberpunk";
  primary = "#00FF66";
  secondary = "#00E5FF";
  accent = "#39FF14";
  success = "#00FF00";
  warning = "#FFFF00";
  error = "#FF0055";
  background = "#0D1117";
  foreground = "#E6EDF3";
}

abbrev pub catppuccin_latte : Theme
catppuccin_latte = record {
  name = "Catppuccin Latte (Light)";
  primary = "#8839EF";
  secondary = "#7287FD";
  accent = "#1E66F5";
  success = "#40A02B";
  warning = "#DF8E1D";
  error = "#D20F39";
  background = "#EFF1F5";
  foreground = "#4C4F69";
}

abbrev pub themes : List Theme
themes = dracula ∷ catppuccin_mocha ∷ matrix_cyberpunk ∷ catppuccin_latte ∷ []

-- The styles of which the dashboards render something.
pub record Styles (Style : Type 0) : Type 0 where
  pub header : Style
  pub box : Style
  pub alert_box : Style
  pub success : Style
  pub warning : Style
  pub error : Style
  pub primary : Style
  pub secondary : Style
  pub dim : Style
  pub sparkline : Style
  pub modal : Style

module _ {Style : Type 0} (lip : Lipgloss Style) where
  abbrev colored : String → Style
  colored c = lip.foreground c lip.new_style

  unfoldable pub make_styles : Theme → Styles Style
  make_styles t = record {
    header =
        lip.padding (pos 0) (pos 1)
          (lip.background t.background (lip.foreground t.primary (lip.bold true lip.new_style)));
    box =
        lip.padding (pos 1) (pos 2)
          (lip.border_foreground t.primary (lip.border rounded lip.new_style));
    alert_box =
        lip.padding (pos 1) (pos 2)
          (lip.border_foreground t.error (lip.border thick lip.new_style));
    success = lip.bold true (colored t.success);
    warning = lip.bold true (colored t.warning);
    error = lip.bold true (colored t.error);
    primary = colored t.primary;
    secondary = colored t.secondary;
    dim = colored "#6272A4";
    sparkline = colored t.accent;
    modal = lip.bold true (
        lip.padding (pos 1) (pos 3) (
          lip.foreground t.foreground (
            lip.background t.background
              (lip.border_foreground t.error (lip.border double lip.new_style)))));
  }

  unfoldable pub render_modal : ModalState → Styles Style → ℤ → Text
  render_modal m styles width =
      if m.active
      then lip.place width (pos 14) (
          lip.render styles.modal
            (lip.render (lip.bold true styles.error) (codes m.title) ++ 10 ∷ 10 ∷ codes m.prompt))
      else []
