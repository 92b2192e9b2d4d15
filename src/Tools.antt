-- ===== src/Tools.antt =====
-- The registry of tools (agi_platform/tool_registry.py).
pub mod Listing
use agi_platform.Prelude.{
  ℕ, String, List, [], ◌∷◌, map, length, Bool, true, false, Dict, put, values,
}

pub record ToolContract : Type 0 where
  pub name : String
  pub level : ℕ
  pub purpose : String
  pub input_schema : Dict String
  pub output_schema : Dict String
  pub permissions : List String
  pub side_effects : Bool
  pub risk : String
  pub mcp_kind : String

abbrev pub tool_contracts : List ToolContract
tool_contracts =
    record {
      name = "memory.search";
      level = 1;
      purpose = "Retrieve ranked platform memories for agentic RAG context assembly.";
      input_schema = ("query", "string") ∷ ("limit", "integer") ∷ [];
      output_schema = ("results", "array") ∷ [];
      permissions = "memory:read" ∷ [];
      side_effects = false;
      risk = "low";
      mcp_kind = "tool";
    }
    ∷ record {
      name = "research.report";
      level = 3;
      purpose = "Build evidence-backed research reports with source trust metadata.";
      input_schema = ("query", "string") ∷ [];
      output_schema = ("query", "string") ∷ ("evidence", "array") ∷ ("summary", "string") ∷ [];
      permissions = "research:read" ∷ "network:restricted" ∷ [];
      side_effects = false;
      risk = "medium";
      mcp_kind = "tool";
    }
    ∷ record {
      name = "analysis.code";
      level = 5;
      purpose = "Analyze source snippets for security and code-quality findings.";
      input_schema = ("code", "string") ∷ [];
      output_schema = ("findings", "array") ∷ ("summary", "object") ∷ [];
      permissions = "analysis:run" ∷ [];
      side_effects = false;
      risk = "medium";
      mcp_kind = "tool";
    }
    ∷ record {
      name = "sandbox.execute";
      level = 7;
      purpose = "Run approved commands inside a constrained sandbox profile.";
      input_schema = ("command", "array") ∷ ("timeout_seconds", "integer") ∷ [];
      output_schema = ("stdout", "string") ∷ ("stderr", "string") ∷ ("returncode", "integer") ∷ [];
      permissions = "sandbox:execute" ∷ [];
      side_effects = true;
      risk = "high";
      mcp_kind = "tool";
    }
    ∷ record {
      name = "governance.review";
      level = 10;
      purpose = "Record human approval decisions for risk-managed workflows.";
      input_schema =
          ("decision_id", "integer") ∷ ("approver", "string") ∷ ("approved", "boolean") ∷ [];
      output_schema = ("decision", "object") ∷ [];
      permissions = "governance:approve" ∷ [];
      side_effects = true;
      risk = "critical";
      mcp_kind = "tool";
    }
    ∷ []

-- The dictionary of the contracts by name, from one that is there on.
unfoldable pub register : Dict ToolContract → List ToolContract → Dict ToolContract
register contracts [] = contracts
register contracts (c ∷ cs) = register (put contracts c.name c) cs

-- `ToolRegistry(contracts)`
abbrev pub new_registry : List ToolContract → Dict ToolContract
new_registry = register []

pub record ToolList : Type 0 where
  pub count : ℕ
  pub tools : List ToolContract

unfoldable pub list_tools : Dict ToolContract → ToolList
list_tools contracts = record { count = length (values contracts); tools = values contracts }

pub record Annotations : Type 0 where
  pub level : ℕ
  pub permissions : List String
  pub side_effects : Bool
  pub risk : String

pub record McpTool : Type 0 where
  pub name : String
  pub description : String
  pub input_schema : Dict String
  pub annotations : Annotations

pub record McpManifest : Type 0 where
  pub protocol : String
  pub capabilities : Dict Bool
  pub tools : List McpTool

unfoldable pub mcp_tool : ToolContract → McpTool
mcp_tool c = record {
  name = c.name;
  description = c.purpose;
  input_schema = c.input_schema;
  annotations = record {
    level = c.level;
    permissions = c.permissions;
    side_effects = c.side_effects;
    risk = c.risk;
  };
}

unfoldable pub mcp_manifest : Dict ToolContract → McpManifest
mcp_manifest contracts = record {
  protocol = "mcp-compatible";
  capabilities = ("tools", true) ∷ ("resources", false) ∷ ("prompts", false) ∷ [];
  tools = map mcp_tool (values contracts);
}
