-- ===== src/Tree/Print.antt =====
-- `write` and `serialize`: the text of a tree.
use ndc_mock.Prelude.{ℕ, zero, suc, Bool, true, List, [], ◌∷◌, String, ◌<>◌, if◌then◌else◌}
use ndc_mock.Prelude.Text.{trim_space}
use ndc_mock.Tree.{Attr, Node, Kids, elem, no_kids, kid, qname}

-- `strings.Repeat("    ", depth)`
unfoldable pub pad : ℕ → String
pad zero = ""
pad (suc n) = "    " <> pad n

-- `escape_text` is `xml.EscapeText`.
module _ (escape_text : String → String) where
  attrs_text : List Attr → String
  unfolding qname
  attrs_text [] = ""
  attrs_text (a ∷ al) =
      " " <> (qname a.space a.local <> ("=\"" <> (escape_text a.value <> ("\"" <> attrs_text al))))

  unfoldable mutual
    unfolding attrs_text trim_space pad

    pub write : ℕ → Bool → Node → String
    write depth indent (elem s al no_kids t) =
        let p = if indent then pad depth else "" in
        let nl = if indent then "\n" else "" in
        (p <> ("<" <> (s <> attrs_text al)))
        <> (">" <> (escape_text (trim_space t) <> ("</" <> (s <> (">" <> nl)))))
    write depth indent (elem s al (kid k ks) t) =
        let p = if indent then pad depth else "" in
        let nl = if indent then "\n" else "" in
        (p <> ("<" <> (s <> attrs_text al)))
        <> ((">" <> nl)
            <> (write (suc depth) indent k
                <> (write_kids (suc depth) indent ks <> (p <> ("</" <> (s <> (">" <> nl)))))))

    pub write_kids : ℕ → Bool → Kids → String
    write_kids depth indent no_kids = ""
    write_kids depth indent (kid k ks) = write depth indent k <> write_kids depth indent ks

  unfoldable pub serialize_as : Bool → Node → String
  unfolding write
  serialize_as indent n =
      "<?xml version=\"1.0\" encoding=\"UTF-8\" standalone=\"no\"?>\n" <> write 0 indent n

  -- Indented by four spaces.
  unfoldable pub serialize : Node → String
  unfolding serialize_as
  serialize n = serialize_as true n
