-- ===== src/Lang/DocHtml/Tests.antt =====
-- src/lang/doc_html.rs: small texts, and the theorems on them.
use php_lsp.Prelude.{◌≡◌, ◌≢◌, refl, none, some}
use php_lsp.Prelude.Chars.{Text, codes}
use php_lsp.Prelude.Strs.{trim_end_by, is_whitespace}
use php_lsp.Lang.DocHtml.{html_to_markdown, tidy_whitespace}
use php_lsp.Lang.DocHtml.Total.{html_to_markdown-total}
use php_lsp.Lang.DocHtml.Escaped.{escape, html_to_markdown-escape}

abbrev inline : Text
inline = codes "<p>Returns <b>FALSE</b> &gt; <code>x</code>.</p>"

converts_inline : html_to_markdown inline ≡ some (codes "Returns **FALSE** > `x`.")
unfolding html_to_markdown trim_end_by is_whitespace
converts_inline = refl

html_to_markdown-total_example : html_to_markdown inline ≢ none
html_to_markdown-total_example = html_to_markdown-total inline

html_to_markdown-escape_example :
    html_to_markdown (codes "a &lt; b &amp; c") ≡ some (tidy_whitespace (codes "a < b & c"))
unfolding escape
html_to_markdown-escape_example = html_to_markdown-escape (codes "a < b & c") refl
