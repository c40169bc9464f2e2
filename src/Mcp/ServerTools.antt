-- ===== src/Mcp/ServerTools.antt =====
-- mcp_server.py: the tools that the server lists.
use responsibility_pathway_r.Prelude.{ℕ, String, false}
use responsibility_pathway_r.Value.{
  Value, Items, Fields, bool, int, pos, str, list, dict, nil, cons, end, entry,
}

limit_schema : ℕ → Fields
limit_schema maximum =
    entry "limit"
      (dict (
        entry "type" (str "integer")
          (entry "minimum" (int (pos 1)) (entry "maximum" (int (pos maximum)) end))))
      end

id_schema : Fields → Fields
id_schema rest =
    entry "pathway_id" (dict (entry "type" (str "string") (entry "minLength" (int (pos 1)) end)))
      rest

tool : String → String → Fields → Fields → Value
tool method description properties required = dict (
    entry "name" (str method) (
      entry "description" (str description) (
        entry "inputSchema"
          (dict (entry "type" (str "object") (entry "properties" (dict properties) required)))
          end)))

closed : Fields
closed = entry "additionalProperties" (bool false) end

id_required : Fields
unfolding closed
id_required = entry "required" (list (cons (str "pathway_id") nil)) closed

-- `_TOOLS`
unfoldable pub tools : Items
unfolding limit_schema id_schema tool closed id_required
tools =
    cons
      (tool "rpr.get_status" "Return read-only RPR database status and pathway counts." end closed)
      (cons
        (tool "rpr.list_pathways" "List RPR pathways without changing runtime state."
          (limit_schema 1_000) closed)
        (cons
          (tool "rpr.get_pathway" "Return one RPR pathway definition and current state."
            (id_schema end) id_required)
          (cons
            (tool "rpr.get_route_visibility"
              "Return read-only Responsibility Routing visibility for one RPR pathway without granting Authority."
              (id_schema end) id_required)
            (cons
              (tool "rpr.get_evidence" "Return retained evidence events for one RPR pathway."
                (id_schema (limit_schema 5_000)) id_required)
              (cons
                (tool "rpr.list_unresolved"
                  "List pathways that are not completed, denied, or aborted." (limit_schema 1_000)
                  closed)
                nil)))))
