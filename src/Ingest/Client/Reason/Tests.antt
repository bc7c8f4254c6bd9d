-- ===== src/Ingest/Client/Reason/Tests.antt =====
-- The reason of an acknowledgement.
use gridlens.Prelude.{◌≡◌, refl, none, some}
use gridlens.Ingest.Xml.{Element, element, nil, cons, has_brace}
use gridlens.Ingest.Client.Reason.{
  before_brace, without_braces, namespace_of, qualified, child_text, find_text, text_below,
  reason_of,
}

abbrev acknowledgement : Element
acknowledgement = element "{urn:a}Acknowledgement" none (
    cons (element "{urn:a}mRID" (some "m1") nil) (
      cons
        (element "{urn:a}Reason" none (
          cons (element "{urn:a}code" (some "999") nil)
            (cons (element "{urn:a}text" (some "No matching data found") nil) nil)))
        nil))

no_data_found : reason_of (λ s. s) acknowledgement ≡ ("999", "No matching data found")
unfolding before_brace without_braces namespace_of has_brace qualified child_text find_text
    text_below reason_of
no_data_found = refl
